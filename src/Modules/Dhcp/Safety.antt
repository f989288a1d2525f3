-- ===== src/Modules/Dhcp/Safety.antt =====
-- `decode` of class DHCP in src/modules/dhcp.cc ends and stays inside the packet.
use Prim.Native.String.{String}
use packetmachine.Base.{
  ℕ, zero, suc, ◌+◌, ◌≤◌, ◌<◌, ◌≡◌, refl, true, Option, none, some, List, [], ◌∷◌, ◌==◌, arith, All,
  length, get_or, Bytes, load_lem, Satisfies, Satisfies->>=, Satisfies-weaken, Bool-cases, inl, inr,
}
use packetmachine.Payload.{Payload}
use packetmachine.Payload.Bounds.{Retains}
use packetmachine.Value.{big}
use packetmachine.Property.{Property, Handle, retain_value}
use packetmachine.Property.Objects.{Class, ParamDef}
use packetmachine.Property.Pools.{Inv}
use packetmachine.Property.Handles.{
  Keeps, retain_value-Keeps, alter-Keeps, alter_as-Keeps, retain_value-class,
}
use packetmachine.Property.Write.{set_value-Inv}
use packetmachine.Modules.Contract.{
  IsParamOf, IsReady, IsParam, IsGood, retain_or_stop-IsGood, retain-IsReady,
}
use packetmachine.Modules.Dhcp.{
  Dhcp, Field, set_up, set_view, set_links, push_item, set_fields, fixed_fields, name_field,
  put_option, Round, option_data, option_header, round, options, decode_header, decode,
}

pub record IsSetUp (class : ℕ → Class) (m : Dhcp) : Type 0 where
  pub msg_type_param : IsParam class m.p_msg_type
  pub hw_type_param : IsParam class m.p_hw_type
  pub hw_addr_len_param : IsParam class m.p_hw_addr_len
  pub hops_param : IsParam class m.p_hops
  pub trans_id_param : IsParam class m.p_trans_id
  pub seconds_param : IsParam class m.p_seconds
  pub flags_param : IsParam class m.p_flags
  pub client_addr_param : IsParam class m.p_client_addr
  pub your_client_addr_param : IsParam class m.p_your_client_addr
  pub next_server_addr_param : IsParam class m.p_next_server_addr
  pub relay_agent_addr_param : IsParam class m.p_relay_agent_addr
  pub client_hw_addr_param : IsParam class m.p_client_hw_addr
  pub server_host_name_param : IsParam class m.p_server_host_name
  pub boot_file_name_param : IsParam class m.p_boot_file_name
  pub magic_cookie_param : IsParam class m.p_magic_cookie
  pub options_param : IsParamOf class Class.array m.p_options
  pub option_param : IsParamOf class Class.dhcp_option m.p_option
  pub opt_type_param : IsParam class m.p_opt_type
  pub opt_length_param : IsParam class m.p_opt_length
  pub opt_data_param : IsParam class m.p_opt_data

pub set_up-IsSetUp :
    (class : ℕ → Class) (define_param : String → Class → ParamDef)
    → ((name : String) (c : Class) → IsParamOf class c (define_param name c))
    → IsSetUp class (set_up define_param)
unfolding set_up
set_up-IsSetUp class define_param c = record {
  msg_type_param = (c "msg_type" Class.value).0;
  hw_type_param = (c "hw_type" Class.value).0;
  hw_addr_len_param = (c "hw_addr_len" Class.value).0;
  hops_param = (c "hops" Class.value).0;
  trans_id_param = (c "trans_id" Class.value).0;
  seconds_param = (c "seconds" Class.value).0;
  flags_param = (c "flags" Class.value).0;
  client_addr_param = (c "client_addr" Class.value).0;
  your_client_addr_param = (c "your_client_addr" Class.value).0;
  next_server_addr_param = (c "next_server_addr" Class.value).0;
  relay_agent_addr_param = (c "relay_agent_addr" Class.value).0;
  client_hw_addr_param = (c "client_hw_addr" Class.value).0;
  server_host_name_param = (c "server_host_name" Class.value).0;
  boot_file_name_param = (c "boot_file_name" Class.value).0;
  magic_cookie_param = (c "magic_cookie" Class.value).0;
  options_param = c "options" Class.array;
  option_param = c "_option" Class.dhcp_option;
  opt_type_param = (c "_opt_type" Class.value).0;
  opt_length_param = (c "_opt_length" Class.value).0;
  opt_data_param = (c "_opt_data" Class.value).0;
}

module _ (class : ℕ → Class) (m : Dhcp) (w : IsSetUp class m) where
  name_field-IsParam :
      (c : ℕ) (f : Field) → IsParam class f.0 → All (λ g. IsParam class g.0) (name_field c f)
  name_field-IsParam c f h = elim (Bool-cases (c == 0)) [ inl e ↦ rw e tt | inr e ↦ rw e (h, tt) ]

  fixed_fields-IsParam : (n : ℕ) → All (λ g. IsParam class g.0) (fixed_fields m n)
  fixed_fields-IsParam n = (
    w.msg_type_param,
    (
      w.hw_type_param,
      (
        w.hw_addr_len_param,
        (
          w.hops_param,
          (
            w.trans_id_param,
            (
              w.flags_param,
              (
                w.client_addr_param,
                (
                  w.your_client_addr_param,
                  (
                    w.next_server_addr_param,
                    (
                      w.relay_agent_addr_param,
                      (w.magic_cookie_param, (w.seconds_param, (w.client_hw_addr_param, tt))),
                    ),
                  ),
                ),
              ),
            ),
          ),
        ),
      ),
    ),
  )

module _ (class : ℕ → Class) (m : Dhcp) (w : IsSetUp class m) {Buf : Type 0} (mem : Bytes) where
  set_fields-Inv :
      (hdr : ℕ) (fields : List Field) (p : Property Buf)
      → All (λ f. IsParam class f.0) fields
      → Inv class p
      → Satisfies (Inv class) (set_fields m mem hdr fields p)
  unfolding set_fields
  set_fields-Inv hdr [] p c v = v
  set_fields-Inv hdr ((def, off, size, e) ∷ fields) p c v =
      Satisfies->>= (Inv class) (Inv class) _ _ (set_value-Inv class p def (hdr + off) size e v c.0)
        (λ q u. set_fields-Inv hdr fields q c.1 u)

  put_option-Keeps :
      (opt_arr : Handle) (opt_hdr len opt_data : ℕ) (p : Property Buf)
      → class opt_arr.0 ≡ Class.array
      → Keeps class (opt_arr ∷ []) p
      → Satisfies (Keeps class (opt_arr ∷ [])) (put_option m mem opt_arr opt_hdr len opt_data p)
  unfolding put_option
  put_option-Keeps opt_arr opt_hdr len opt_data p is_array k =
      let K : List Handle → Property Buf → Type 0 = Keeps class in
      let o = retain_value p m.p_option in
      let t = retain_value o.1 m.p_opt_type in
      let l = retain_value t.1 m.p_opt_length in
      let d = retain_value l.1 m.p_opt_data in
      let all : List Handle = d.0 ∷ l.0 ∷ t.0 ∷ o.0 ∷ opt_arr ∷ [] in
      let k1 = retain_value-Keeps class (opt_arr ∷ []) p m.p_option k w.option_param.0 in
      let k2 = retain_value-Keeps class (o.0 ∷ opt_arr ∷ []) o.1 m.p_opt_type k1 w.opt_type_param in
      let k3 =
        retain_value-Keeps class (t.0 ∷ o.0 ∷ opt_arr ∷ []) t.1 m.p_opt_length k2
          w.opt_length_param in
      let k4 =
        retain_value-Keeps class (l.0 ∷ t.0 ∷ o.0 ∷ opt_arr ∷ []) l.1 m.p_opt_data k3
          w.opt_data_param in
      Satisfies->>= (K all) (K (opt_arr ∷ [])) _ _
        (alter-Keeps class all d.1 (set_view opt_hdr 1) t.0 (λ x. refl) k4.1.1.1.0 k4)
        (λ p5 k5.
          Satisfies->>= (K all) (K (opt_arr ∷ [])) _ _
            (alter-Keeps class all p5 (set_view (opt_hdr + 1) 1) l.0 (λ x. refl) k5.1.1.0 k5)
            (λ p6 k6.
              Satisfies->>= (K all) (K (opt_arr ∷ [])) _ _
                (alter-Keeps class all p6 (set_view opt_data len) d.0 (λ x. refl) k6.1.0 k6)
                (λ p7 k7.
                  Satisfies->>= (K all) (K (opt_arr ∷ [])) _ _
                    (alter_as-Keeps class all p7 Class.dhcp_option (set_links t.0 l.0 d.0) o.0
                      (λ x. refl)
                      (retain_value-class class p m.p_option Class.dhcp_option w.option_param.0
                        w.option_param.1)
                      k7.1.1.1.1.0 k7)
                    (λ p8 k8.
                      Satisfies-weaken (K all) (K (opt_arr ∷ [])) _ (λ q h. (h.0, h.1.1.1.1.1))
                        (alter_as-Keeps class all p8 Class.array (push_item o.0) opt_arr (λ x. refl)
                          is_array k8.1.1.1.1.1.0 k8)))))

  -- After a round: the cursor has moved by a header at least where the loop goes on.
  abbrev IsRound : Handle → ℕ → Round Buf → Type 0
  IsRound opt_arr len (goes, pd, p) =
      IsReady (length mem) pd × Keeps class (opt_arr ∷ []) p × (goes ≡ true → pd.length + 2 ≤ len)

  option_data-IsRound :
      (opt_arr : Handle) (opt_hdr n limit : ℕ) (p : Property Buf) (pd : Payload)
      (r : Option ℕ × Payload)
      → class opt_arr.0 ≡ Class.array
      → Keeps class (opt_arr ∷ []) p
      → pd.length + 2 ≤ limit
      → Retains (length mem) pd n r
      → IsReady (length mem) r.1
      → Satisfies (IsRound opt_arr limit) (option_data m mem opt_arr opt_hdr n p r)
  unfolding option_data
  option_data-IsRound opt_arr opt_hdr n limit p pd (none, q) is_array k le w ready =
      (ready, k, λ e. absurd (cc))
  option_data-IsRound opt_arr opt_hdr n limit p pd (some at, q) is_array k le w ready =
      Satisfies->>= (Keeps class (opt_arr ∷ [])) (IsRound opt_arr limit) _ _
        (put_option-Keeps opt_arr opt_hdr n at p is_array k)
        (λ p1 k1. (ready, k1, λ e. omega (arith, le, w.4)))

  option_header-IsRound :
      (opt_arr : Handle) (p : Property Buf) (pd : Payload) (r : Option ℕ × Payload)
      → class opt_arr.0 ≡ Class.array
      → Keeps class (opt_arr ∷ []) p
      → Retains (length mem) pd 2 r
      → IsReady (length mem) r.1
      → Satisfies (IsRound opt_arr pd.length) (option_header m mem opt_arr p r)
  unfolding option_header
  option_header-IsRound opt_arr p pd (none, q) is_array k w ready = (ready, k, λ e. absurd (cc))
  option_header-IsRound opt_arr p pd (some at, q) is_array k w ready =
      rw (load_lem mem at (omega (arith, w.2))) (elim (Bool-cases (get_or mem at 0 == 0xff)) [
        | inl e ↦ rw e (ready, k, λ c. absurd (cc))
        | inr e ↦
            rw (e, load_lem mem (at + 1) (omega (arith, w.2)))
              (Satisfies->>=
                (λ s. Retains (length mem) q (get_or mem (at + 1) 0) s × IsReady (length mem) s.1)
                (IsRound opt_arr pd.length) _ _
                (retain-IsReady (length mem) (get_or mem (at + 1) 0) q ready)
                (λ s h.
                  option_data-IsRound opt_arr at (get_or mem (at + 1) 0) pd.length p q s is_array k
                    (omega (arith, w.4)) h.0 h.1))
      ])

  -- The loop over the options ends.
  options-Keeps :
      (fuel : ℕ) (opt_arr : Handle) (pd : Payload) (p : Property Buf)
      → pd.length < fuel
      → IsReady (length mem) pd
      → class opt_arr.0 ≡ Class.array
      → Keeps class (opt_arr ∷ []) p
      → Satisfies (λ r. IsReady (length mem) r.0 × Inv class r.1) (options m mem fuel opt_arr pd p)
  unfolding options round
  options-Keeps zero opt_arr pd p lt ready is_array k = absurd (omega (arith, lt))
  options-Keeps (suc fuel) opt_arr pd p lt ready is_array k =
      Satisfies->>= (IsRound opt_arr pd.length) (λ r. IsReady (length mem) r.0 × Inv class r.1) _ _
        (Satisfies->>= (λ s. Retains (length mem) pd 2 s × IsReady (length mem) s.1)
          (IsRound opt_arr pd.length) _ _ (retain-IsReady (length mem) 2 pd ready)
          (λ s h. option_header-IsRound opt_arr p pd s is_array k h.0 h.1))
        (λ s h. elim (Bool-cases s.0) [
          | inl e ↦
              rw e (options-Keeps fuel opt_arr s.1 s.2 (omega (arith, lt, h.2 e)) h.0 is_array h.1)
          | inr e ↦ rw e (h.0, h.1.0)
        ])

  -- Over every packet the module for DHCP ends with NONE as the next module: the loop over the
  -- options comes to an end, nothing outside of the packet is read, no pointer to a value that was
  -- retained goes stale, no `dynamic_cast` gives null, and the cursor and the property stay good.
  -- This where the parameters have the constructors of their ids, and the array of the options and
  -- the option those of their classes.
  pub decode-IsGood :
      (Next : Option ℕ → Type 0) (pd : Payload) (prop : Property Buf)
      → Next none
      → IsReady (length mem) pd
      → Inv class prop
      → Satisfies (IsGood class (length mem) Next) (decode m mem pd prop)
  unfolding decode decode_header
  decode-IsGood Next pd prop stop r v =
      retain_or_stop-IsGood class (length mem) Next 240 pd prop (decode_header m mem prop) stop r v
        (λ hdr pd' h r'.
          rw
            (
              load_lem mem (hdr + 2) (omega arith),
              load_lem mem (hdr + 44) (omega arith),
              load_lem mem (hdr + 108) (omega arith),
            )
            (Satisfies->>= (Inv class) (IsGood class (length mem) Next) _ _
              (set_fields-Inv hdr (fixed_fields m (get_or mem (hdr + 2) 0)) prop
                (fixed_fields-IsParam class m w (get_or mem (hdr + 2) 0)) v)
              (λ p1 v1.
                Satisfies->>= (Inv class) (IsGood class (length mem) Next) _ _
                  (set_fields-Inv hdr _ p1
                    (name_field-IsParam class m w (get_or mem (hdr + 44) 0)
                      (m.p_server_host_name, 44, 64, big) w.server_host_name_param)
                    v1)
                  (λ p2 v2.
                    Satisfies->>= (Inv class) (IsGood class (length mem) Next) _ _
                      (set_fields-Inv hdr _ p2
                        (name_field-IsParam class m w (get_or mem (hdr + 108) 0)
                          (m.p_boot_file_name, 108, 128, big) w.boot_file_name_param)
                        v2)
                      (λ p3 v3.
                        Satisfies->>= (λ x. IsReady (length mem) x.0 × Inv class x.1)
                          (IsGood class (length mem) Next) _ _
                          (options-Keeps (suc pd'.length) (retain_value p3 m.p_options).0 pd' _
                            (omega arith) r'
                            (retain_value-class class p3 m.p_options Class.array w.options_param.0
                              w.options_param.1)
                            (retain_value-Keeps class [] p3 m.p_options (v3, tt) w.options_param.0))
                          (λ x k. record { next = stop; ready = k.0; inv = k.1 }))))))
