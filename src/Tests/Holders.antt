-- ===== src/Tests/Holders.antt =====
-- Arrays and maps of numbers.
use packetmachine.Base.{ℕ, ◌≡◌, some, [], ◌∷◌, ok}
use packetmachine.Value.Arrays.{Array, size, get, push_all, get-push_all}
use packetmachine.Value.Arrays
use packetmachine.Value.Maps.{Map, find, insert, find-insert}

abbrev used : Array ℕ
used = record { array = 9 ∷ [] }

abbrev named : Map ℕ
named = record { map = ("name", 1) ∷ ("type", 2) ∷ [] }

get-push_all_example :
    (size (push_all (Arrays.clear used) (4 ∷ 5 ∷ [])) ≡ 2)
    × (get (push_all (Arrays.clear used) (4 ∷ 5 ∷ [])) 1 ≡ ok (some 5))
get-push_all_example = get-push_all used (4 ∷ 5 ∷ []) 1

find-insert_example : find (insert named "type" 7) "type" ≡ some 2
unfolding find
find-insert_example = find-insert named "type" "type" 7
