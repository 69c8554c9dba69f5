-- ===== src/Prelude/Assoc.antt =====
-- Key-value pairs in a list, the first pair under a key being the one that counts: the nodes of a
-- chain, and Go's maps where only look-ups matter.
use tinyredis.Prelude.Tests.{if◌then◌else◌, ◌==◌}
use tinyredis.Prelude.Lists.{length}
use tinyredis.Prelude.Text.{Bytes, eqb, eqb_iff}
use Prim.Native.Nat.{ℕ, ◌-◌}
use mathlib.Core.Path.{◌≡◌, refl}
use mathlib.Core.Bool.{Bool, true, false, ◌||◌}
use mathlib.Core.Option.{Option, none, some}
use mathlib.Core.List.{List, [], ◌∷◌, map}
use native.Mathlib.Omega.{arith}

abbrev pub is_some {ℓ} : {A : Type ℓ} → Option A → Bool
is_some none = false
is_some (some a) = true

-- Whether a number stands in a list.
unfoldable pub among : ℕ → List ℕ → Bool
among p [] = false
among p (q ∷ qs) = (p == q) || among p qs

abbrev pub keys_of {ℓ} : {V : Type ℓ} → List (Bytes × V) → List Bytes
keys_of = map (λ p. p.0)

module _ {ℓ} {V : Type ℓ} where
  -- The value under a key.
  unfoldable pub find : Bytes → List (Bytes × V) → Option V
  find key [] = none
  find key ((k, v) ∷ rest) = if eqb k key then some v else find key rest

  -- The first pair under the key gets a new value.
  unfoldable pub replace : Bytes → V → List (Bytes × V) → List (Bytes × V)
  replace key value [] = []
  replace key value ((k, v) ∷ rest) =
      if eqb k key then (k, value) ∷ rest else (k, v) ∷ replace key value rest

  -- The first pair under the key goes.
  unfoldable pub unlink : Bytes → List (Bytes × V) → List (Bytes × V)
  unlink key [] = []
  unlink key ((k, v) ∷ rest) = if eqb k key then rest else (k, v) ∷ unlink key rest

  -- No key stands twice.
  abbrev pub Distinct : List (Bytes × V) → Type ℓ
  Distinct [] = Unit
  Distinct ((k, v) ∷ rest) = (find k rest ≡ none) × Distinct rest

  pub find-replace :
      (k j : Bytes) (v : V) (l : List (Bytes × V))
      → find j (replace k v l)
        ≡ (if eqb k j then (if is_some (find k l) then some v else none) else find j l)
  unfolding find replace
  find-replace k j v [] = ground arith
  find-replace k j v ((i, w) ∷ l) =
      ground (arith, eqb_iff i k, eqb_iff i j, eqb_iff k j, find-replace k j v l)

  pub find-unlink :
      (k j : Bytes) (l : List (Bytes × V))
      → Distinct l
      → find j (unlink k l) ≡ (if eqb k j then none else find j l)
  unfolding find unlink
  find-unlink k j [] h = ground arith
  find-unlink k j ((i, w) ∷ l) h =
      ground (arith, eqb_iff i k, eqb_iff i j, eqb_iff k j, find-unlink k j l h.1)

  pub replace-Distinct :
      (k : Bytes) (v : V) (l : List (Bytes × V)) → Distinct l → Distinct (replace k v l)
  unfolding replace
  replace-Distinct k v [] h = tt
  replace-Distinct k v ((i, w) ∷ l) h =
      ground (arith, eqb_iff i k, find-replace k i v l, replace-Distinct k v l h.1, eqb_iff k i)

  pub unlink-Distinct : (k : Bytes) (l : List (Bytes × V)) → Distinct l → Distinct (unlink k l)
  unfolding unlink
  unlink-Distinct k [] h = tt
  unlink-Distinct k ((i, w) ∷ l) h =
      ground (arith, eqb_iff i k, find-unlink k i l h.1, unlink-Distinct k l h.1, eqb_iff k i)

  pub length-replace :
      (k : Bytes) (v : V) (l : List (Bytes × V)) → length (replace k v l) ≡ length l
  unfolding replace
  length-replace k v [] = refl
  length-replace k v ((i, w) ∷ l) = ground (arith, length-replace k v l)

  pub length-unlink :
      (k : Bytes) (l : List (Bytes × V))
      → length (unlink k l) ≡ (if is_some (find k l) then length l - 1 else length l)
  unfolding unlink find
  length-unlink k [] = refl
  length-unlink k ((i, w) ∷ []) = ground arith
  length-unlink k ((i, w) ∷ p ∷ l) = ground (arith, length-unlink k (p ∷ l))
