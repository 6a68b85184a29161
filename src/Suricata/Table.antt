-- ===== src/Suricata/Table.antt =====
-- The table of types never grows without limit and counts every event
-- (backend/internal/suricata/suricata.go, `note`).
use pmacct_suricata_analyzer.Prelude.{
  ℕ, ◌+◌, ◌≤◌, ◌<◌, ◌≡◌, refl, true, ◌||◌, List, [], ◌∷◌, String, Option, none, some, str_eq, get,
  put, length, leb, is_some, arith, eq_iff, if◌then◌else◌, Option-cases, Bool-cases, inl, inr,
}
use pmacct_suricata_analyzer.Suricata.Types.{TypeStat}
use pmacct_suricata_analyzer.Suricata.Handle.{
  max_types, note_type, stat_after, one_more, first_of_type,
}

abbrev pub Types : Type 0
Types = List (String × TypeStat)

-- The events that a table counts.
abbrev pub total : Types → ℕ
total [] = 0
total ((_, ts) ∷ types) = ts.count + total types

count_of : Option TypeStat → ℕ
count_of none = 0
count_of (some ts) = ts.count

total-put :
    (k : String) (v : TypeStat) (types : Types)
    → total (put k v types) + count_of (get k types) ≡ total types + v.count
unfolding count_of
total-put k v [] = omega arith
total-put k v ((j, w) ∷ types) = ground (arith, total-put k v types)

length-put :
    (k : String) (v : TypeStat) (types : Types)
    → length (put k v types) ≡ length types + (if is_some (get k types) then 0 else 1)
length-put k v [] = omega arith
length-put k v ((j, w) ∷ types) = ground (arith, length-put k v types)

has-put :
    (j k : String) (v : TypeStat) (types : Types)
    → is_some (get j (put k v types)) ≡ (str_eq k j || is_some (get j types))
has-put j k v [] = ground arith
has-put j k v ((i, w) ∷ types) =
    ground (arith, eq_iff i k, eq_iff i j, eq_iff k j, has-put j k v types)

-- There is room for 24 types, and for "other".
abbrev pub HasRoom : Types → Type 0
HasRoom types = length types ≤ max_types + (if is_some (get "other" types) then 1 else 0)

count-stat_after : (at : ℕ) (o : Option TypeStat) → (stat_after at o).count ≡ count_of o + 1
unfolding count_of
count-stat_after at none = omega arith
count-stat_after at (some ts) = refl

-- An entry that counts one more event, or the first.
total-put_one :
    (k : String) (at : ℕ) (types : Types)
    → total (put k (stat_after at (get k types)) types) ≡ total types + 1
total-put_one k at types =
    omega
      (arith, total-put k (stat_after at (get k types)) types, count-stat_after at (get k types))

pub total-note_type :
    (key : String) (at : ℕ) (types : Types) → total (note_type key at types) ≡ total types + 1
unfolding note_type
total-note_type key at types = elim (Option-cases (get key types)) [
  | inr (ts, e) ↦ rw (e, note_type) (rw e at (total-put_one key at types))
  | inl e ↦ elim (Bool-cases (leb max_types (length types))) [
    | inl full ↦ rw (e, note_type, full) (total-put_one "other" at types)
    | inr room ↦ rw (e, note_type, room) (rw e at (total-put_one key at types))
  ]
]

put-HasRoom_old :
    (k : String) (v : TypeStat) (types : Types)
    → is_some (get k types) ≡ true
    → HasRoom types
    → HasRoom (put k v types)
put-HasRoom_old k v types old h = ground (arith, length-put k v types, has-put "other" k v types)

put-HasRoom_new :
    (k : String) (v : TypeStat) (types : Types) → length types < max_types → HasRoom (put k v types)
put-HasRoom_new k v types room = ground (arith, length-put k v types)

put-HasRoom_other : (v : TypeStat) (types : Types) → HasRoom types → HasRoom (put "other" v types)
put-HasRoom_other v types h =
    ground (arith, length-put "other" v types, has-put "other" "other" v types)

pub note_type-HasRoom :
    (key : String) (at : ℕ) (types : Types) → HasRoom types → HasRoom (note_type key at types)
unfolding note_type
note_type-HasRoom key at types h = elim (Option-cases (get key types)) [
  | inr (ts, e) ↦ rw (e, note_type) (put-HasRoom_old key (one_more at ts) types (rw e) h)
  | inl e ↦ elim (Bool-cases (leb max_types (length types))) [
    | inl full ↦
        rw (e, note_type, full) (put-HasRoom_other (stat_after at (get "other" types)) types h)
    | inr room ↦
        rw (e, note_type, room) (put-HasRoom_new key (first_of_type at) types (ground arith))
  ]
]
