-- ===== src/Hashes/Laws.antt =====
-- The hashes of pkg/memdb/hash_struct.go as maps from fields to values.
use tinyredis.Prelude.{
  ◌+◌, ◌≡◌, refl, ap, Option, none, some, List, [], arith, Bytes, if◌then◌else◌, ◌==◌, length, eqb,
  eqb_iff, is_some, find, Distinct, Bool-cases, inl, inr, find-replace, find-unlink,
  replace-Distinct, unlink-Distinct, length-replace, length-unlink, Option-cases,
}
use tinyredis.Prelude.Int.{ℤ, ◌+ℤ◌, wrap64}
use tinyredis.Decimal.{parse_int, format_int}
use tinyredis.Value.{HashTable}
use tinyredis.Hashes.{assign, set, get, del, incr_by}

-- The counter is the number of fields.
pub record IsValid (h : HashTable) : Type 0 where
  pub distinct : Distinct h.table
  pub counted : h.size ≡ length h.table

-- The value of a field, if it is there.
abbrev pub field : HashTable → Bytes → Option Bytes
field h key = find key h.table

find-assign :
    (k j v : Bytes) (l : List (Bytes × Bytes))
    → find j (assign k v l) ≡ (if eqb k j then some v else find j l)
unfolding assign find
find-assign k j v l = ground (arith, find-replace k j v l)

pub field-set :
    (h : HashTable) (k j v : Bytes) → field (set h k v) j ≡ (if eqb k j then some v else field h j)
unfolding set
field-set h k j v = find-assign k j v h.table

pub field-del :
    (h : HashTable) (k j : Bytes)
    → IsValid h
    → field (del h k).0 j ≡ (if eqb k j then none else field h j)
unfolding del
field-del h k j valid = ground (arith, find-unlink k j h.table valid.distinct, eqb_iff k j)

assign-Distinct : (k v : Bytes) (l : List (Bytes × Bytes)) → Distinct l → Distinct (assign k v l)
unfolding assign
assign-Distinct k v l h = elim (Bool-cases (is_some (find k l))) [
  | inl there ↦ rw there (replace-Distinct k v l h)
  | inr fresh ↦ rw fresh (ground arith)
]

length-assign :
    (k v : Bytes) (l : List (Bytes × Bytes))
    → length (assign k v l) ≡ (if is_some (find k l) then length l else length l + 1)
unfolding assign
length-assign k v l = ground (arith, length-replace k v l)

pub set-IsValid : (h : HashTable) (k v : Bytes) → IsValid h → IsValid (set h k v)
unfolding set
set-IsValid h k v valid = record {
  distinct = assign-Distinct k v h.table valid.distinct;
  counted = ground (arith, length-assign k v h.table, valid.counted);
}

pub del-IsValid : (h : HashTable) (k : Bytes) → IsValid h → IsValid (del h k).0
unfolding del
del-IsValid h k valid = elim (Bool-cases (is_some (find k h.table))) [
  | inl there ↦ rw there (record {
    distinct = unlink-Distinct k h.table valid.distinct;
    counted = ground (arith, length-unlink k h.table, valid.counted);
  })
  | inr absent ↦ rw absent valid
]

-- What `IncrBy` gives for the value of a field: the new number, unless the value is not one.
unfoldable pub number_after : Option Bytes → ℤ → Option ℤ
number_after none n = some n
number_after (some v) n =
    if length v == 0
    then some n
    else elim (parse_int v) [ none ↦ none | some i ↦ some (wrap64 (i +ℤ n)) ]

get_absent : (h : HashTable) (k : Bytes) → field h k ≡ none → get h k ≡ []
unfolding get
get_absent h k e = rw (e, get)

get_there : (h : HashTable) (k : Bytes) {v : Bytes} → field h k ≡ some v → get h k ≡ v
unfolding get
get_there h k e = rw (e, get)

-- `IncrBy` of a hash gives the sum, modulo the width of int64, of the number in the field and the
-- increment, or the increment where the field is missing or its value empty; the field then has
-- that number in decimal and the other fields what they had. Where the value is no number it gives
-- none and changes no field.
pub incr_by_lem :
    (h : HashTable) (k j : Bytes) (n : ℤ)
    → ((incr_by h k n).1 ≡ number_after (field h k) n)
      × (field (incr_by h k n).0 j ≡ elim (number_after (field h k) n) [
        | none ↦ field h j
        | some i ↦ if eqb k j then some (format_int i) else field h j
      ])
unfolding incr_by number_after
incr_by_lem h k j n = elim (Option-cases (field h k)) [
  | inl absent ↦
      rw (get_absent h k absent)
        (rw (ap (λ o. number_after o n) absent) (refl, find-assign k j (format_int n) h.table))
  | inr (v, there) ↦
      rw (get_there h k there, ap (λ o. number_after o n) there)
        (elim (Bool-cases (length v == 0)) [
          | inl empty ↦ rw empty (refl, find-assign k j (format_int n) h.table)
          | inr filled ↦ elim (Option-cases (parse_int v)) [
            | inl no_number ↦ rw (filled, no_number) (refl, refl)
            | inr (i, number) ↦
                rw (filled, number) (refl, find-assign k j (format_int (wrap64 (i +ℤ n))) h.table)
          ]
        ])
]

-- On a hash whose counter is right, `IncrBy` of a field that is there with an empty value leaves
-- the counter one too high.
pub incr_by_count :
    (h : HashTable) (k : Bytes) (n : ℤ)
    → IsValid h
    → field h k ≡ some []
    → (incr_by h k n).0.size ≡ length (incr_by h k n).0.table + 1
unfolding incr_by get
incr_by_count h k n valid empty =
    ground (arith, length-assign k (format_int n) h.table, valid.counted)
