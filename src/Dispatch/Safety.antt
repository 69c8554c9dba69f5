-- ===== src/Dispatch/Safety.antt =====
-- How a command keeps the database well formed: branch by branch.
pub mod Strings
pub mod Keys
pub mod Lists
pub mod Sets
pub mod Hashes
pub mod Table
use tinyredis.Prelude.{Bool, true, false, Option, none, some, List, [], ◌∷◌, Bytes, if◌then◌else◌}
use tinyredis.Prelude.Int.{ℤ}
use tinyredis.Keyspace.{Keyspace}
use tinyredis.Expiry.{Expiry}
use tinyredis.Value.{Value}
use tinyredis.MemDb.{MemDb}
use tinyredis.MemDb.View.{IsValid}
use tinyredis.Lists.Commands.{llen_list, lpush_list, lset_list}

module _ (K : Keyspace Value) (E : Expiry) where
  -- An outcome with a well-formed database.
  abbrev pub Ok : {R : Type 0} → MemDb K E × R → Type 0
  Ok o = IsValid K E o.0

  pub if-Ok :
      {R : Type 0} (b : Bool) (o o' : MemDb K E × R) → Ok o → Ok o' → Ok (if b then o else o')
  if-Ok true o o' h h' = h
  if-Ok false o o' h h' = h'

  pub option-Ok :
      {A R : Type 0} (v : Option A) (o : MemDb K E × R) (f : A → MemDb K E × R)
      → Ok o
      → ((a : A) → Ok (f a))
      → Ok {R = R} (elim v [ none ↦ o | some a ↦ f a ])
  option-Ok none o f h h' = h
  option-Ok (some a) o f h h' = h' a

  -- The same for a choice by the number of words.
  pub one_word :
      {R : Type 0} (args : List Bytes) (o : MemDb K E × R) (f : Bytes → MemDb K E × R)
      → Ok o
      → ((key : Bytes) → Ok (f key))
      → Ok {R = R} (elim args [ key ∷ [] ↦ f key | _ ↦ o ])
  one_word [] o f h h' = h
  one_word (key ∷ []) o f h h' = h' key
  one_word (key ∷ _ ∷ _) o f h h' = h

  pub two_words :
      {R : Type 0} (args : List Bytes) (o : MemDb K E × R) (f : Bytes → Bytes → MemDb K E × R)
      → Ok o
      → ((key word : Bytes) → Ok (f key word))
      → Ok {R = R} (elim args [ key ∷ word ∷ [] ↦ f key word | _ ↦ o ])
  two_words [] o f h h' = h
  two_words (key ∷ []) o f h h' = h
  two_words (key ∷ word ∷ []) o f h h' = h' key word
  two_words (key ∷ word ∷ _ ∷ _) o f h h' = h

  pub three_words :
      {R : Type 0} (args : List Bytes) (o : MemDb K E × R)
      (f : Bytes → Bytes → Bytes → MemDb K E × R)
      → Ok o
      → ((key word next : Bytes) → Ok (f key word next))
      → Ok {R = R} (elim args [ key ∷ word ∷ next ∷ [] ↦ f key word next | _ ↦ o ])
  three_words [] o f h h' = h
  three_words (key ∷ []) o f h h' = h
  three_words (key ∷ word ∷ []) o f h h' = h
  three_words (key ∷ word ∷ next ∷ []) o f h h' = h' key word next
  three_words (key ∷ word ∷ next ∷ _ ∷ _) o f h h' = h

  pub more_words :
      {R : Type 0} (args : List Bytes) (o : MemDb K E × R)
      (f : Bytes → Bytes → List Bytes → MemDb K E × R)
      → Ok o
      → ((key word : Bytes) (rest : List Bytes) → Ok (f key word rest))
      → Ok {R = R} (elim args [ key ∷ word ∷ rest ↦ f key word rest | _ ↦ o ])
  more_words [] o f h h' = h
  more_words (key ∷ []) o f h h' = h
  more_words (key ∷ word ∷ rest) o f h h' = h' key word rest

  -- A command that keeps the database well formed, whatever its words.
  abbrev pub Keeps : {R : Type 0} → (MemDb K E → ℤ → Bytes → List Bytes → MemDb K E × R) → Type 0
  Keeps f =
      (m : MemDb K E) (now : ℤ) (name : Bytes) (args : List Bytes)
      → IsValid K E m
      → IsValid K E (f m now name args).0

  pub pick :
      (b : Bool) (x y : MemDb K E)
      → IsValid K E x
      → IsValid K E y
      → IsValid K E (if b then x else y)
  pick true x y h h' = h
  pick false x y h h' = h'
