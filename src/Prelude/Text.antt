-- ===== src/Prelude/Text.antt =====
-- A Go `string` and a Go `[]byte` are lists of bytes. `eqb` is `==` on strings and `bytes.Equal`.
use Prim.Native.Nat.{ℕ, ◌+◌}
use Prim.Native.Char.{code}
use Prim.Native.String.{String}
use mathlib.Core.Path.{◌≡◌, refl}
use mathlib.Core.Logic.{◌↔◌, ◌≢◌}
use mathlib.Core.Bool.{Bool, true, false, ◌&&◌}
use mathlib.Core.List.{List, [], ◌∷◌, map}
use native.Mathlib.Omega.{arith}
use tinyredis.Prelude.Tests.{leb, ◌==◌, if◌then◌else◌}

abbrev pub Bytes : Type 0
Bytes = List ℕ

-- A text of the source, as bytes. It stays shut, so a message is one symbol in a proof.
unfoldable pub text : String → Bytes
text String.[] = []
text (String.◌∷◌ c s) = code c ∷ text s

unfoldable pub eqb : Bytes → Bytes → Bool
eqb [] [] = true
eqb [] (b ∷ bs) = false
eqb (a ∷ as') [] = false
eqb (a ∷ as') (b ∷ bs) = (a == b) && eqb as' bs

pub eqb_iff : (s t : Bytes) → (eqb s t ≡ true) ↔ (s ≡ t)
unfolding eqb
eqb_iff [] [] = (λ _. refl, λ _. refl)
eqb_iff [] (b ∷ bs) = (λ h. cc, λ h. cc)
eqb_iff (a ∷ as') [] = (λ h. cc, λ h. cc)
eqb_iff (a ∷ as') (b ∷ bs) = ground (arith, eqb_iff as' bs)

pub eqb_refl : (s : Bytes) → eqb s s ≡ true
eqb_refl s = (eqb_iff s s).1 refl

pub eqb_ne : (s t : Bytes) → s ≢ t → eqb s t ≡ false
eqb_ne s t h = ground (arith, eqb_iff s t)

-- `strings.ToLower` and `strings.ToUpper`, for texts of ASCII letters.
lower : ℕ → ℕ
lower c = if leb 65 c && leb c 90 then c + 32 else c

unfoldable pub to_lower : Bytes → Bytes
unfolding lower
to_lower = map lower
