-- ===== src/Property/Objects.antt =====
-- The objects that a pool holds: class Value and the classes that inherit it, of
-- src/packetmachine/value.hpp and of the decode modules, as one record with all their fields. A
-- field that a class has not is not used.
use packetmachine.Base.{ℕ, List, []}
use packetmachine.Value.{Value, big}
use packetmachine.Value

-- The function `constructor_` of a parameter, by the class that it makes.
pub data Class : Type 0 where
  value ipv4_addr ipv6_addr port_number array storage : Class
  icmp_type icmp_code ns_name ns_data ns_type ns_record dhcp_option : Class

abbrev pub class_number : Class → ℕ
class_number value = 0
class_number ipv4_addr = 1
class_number ipv6_addr = 2
class_number port_number = 3
class_number array = 4
class_number storage = 5
class_number icmp_type = 6
class_number icmp_code = 7
class_number ns_name = 8
class_number ns_data = 9
class_number ns_type = 10
class_number ns_record = 11
class_number dhcp_option = 12

-- `ParamDef`: its id, which the decoder gives out, and its constructor.
pub record ParamDef : Type 0 where
  pub id : ℕ
  pub class : Class

-- A `Value*` in a map: null, the static `value::NONE`, or a handle.
pub data Link : Type 0 where
  null none_value : Link
  to : ℕ × ℕ → Link

pub record Object : Type 0 where
  pub class : Class
  pub view : Value
  -- `Array::array_`
  pub items : List (ℕ × ℕ)
  -- `ValueStorage::storage_`
  pub minors : List Value
  -- `type_` of IcmpCode and NSData, `base_ptr_` and `total_len_` of NSName and NSData
  pub code_type : ℕ
  pub base_ptr : ℕ
  pub total_len : ℕ
  -- the entries of NSRecord and of the options of DHCP
  pub type_link : Link
  pub name_link : Link
  pub data_link : Link
  pub length_link : Link

-- The links of a new object. `NSRecord` starts with `NONE` for its data.
abbrev first_data : Class → Link
first_data ns_record = none_value
first_data _ = null

-- What the constructors leave unset is 0 or BIG here; nothing reads it before it is set.
unfoldable pub new_object : Class → Object
new_object c = record {
  class = c;
  view = Value.construct big;
  items = [];
  minors = [];
  code_type = 0;
  base_ptr = 0;
  total_len = 0;
  type_link = null;
  name_link = null;
  data_link = first_data c;
  length_link = null;
}

-- The virtual `clear`, by the class of the object.
unfoldable pub clear_as : Class → Object → Object
clear_as array o = record o { items = [] }
clear_as ns_record o = record o { data_link = none_value }
clear_as dhcp_option o = record o { type_link = null; length_link = null; data_link = null }
clear_as _ o = record o { view = Value.clear o.view }

unfoldable pub clear_object : Object → Object
unfolding clear_as
clear_object o = clear_as o.class o
