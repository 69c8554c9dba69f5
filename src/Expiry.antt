-- ===== src/Expiry.antt =====
-- What the commands of pkg/memdb use of `TTLManager`: its operations and the laws that they obey on
-- a well-formed manager. `Expiry.Managed` fills it with the manager of pkg/memdb/db.go.
pub mod Managed
use tinyredis.Prelude.{◌≡◌, Bool, true, false, Option, none, some, Bytes, eqb, if◌then◌else◌}
use tinyredis.Prelude.Int.{ℤ}
use tinyredis.Ttl.ShardLaws.{lapsed}

pub record Expiry : Type 1 where
  pub Ttl : Type 0
  pub IsValid : Ttl → Type 0
  pub new_ttl : ℤ → Ttl
  pub expire_at : Ttl → Bytes → Option ℤ
  pub set_ttl : Ttl → Bytes → ℤ → Ttl
  pub remove_ttl : Ttl → Bytes → Ttl
  pub check_ttl : Ttl → Bytes → ℤ → Ttl × Bool
  pub new_ttl-IsValid : (size : ℤ) → IsValid (new_ttl size)
  pub expire_at-new_ttl : (size : ℤ) (k : Bytes) → expire_at (new_ttl size) k ≡ none
  pub set_ttl-IsValid : (t : Ttl) (k : Bytes) (e : ℤ) → IsValid t → IsValid (set_ttl t k e)
  pub expire_at-set_ttl :
      (t : Ttl) (k j : Bytes) (e : ℤ)
      → IsValid t
      → expire_at (set_ttl t k e) j ≡ (if eqb k j then some e else expire_at t j)
  pub remove_ttl-IsValid : (t : Ttl) (k : Bytes) → IsValid t → IsValid (remove_ttl t k)
  pub expire_at-remove_ttl :
      (t : Ttl) (k j : Bytes)
      → IsValid t
      → expire_at (remove_ttl t k) j ≡ (if eqb k j then none else expire_at t j)
  pub check_ttl-IsValid :
      (t : Ttl) (k : Bytes) (now : ℤ) → IsValid t → IsValid (check_ttl t k now).0
  pub check_ttl_live :
      (t : Ttl) (k : Bytes) (now : ℤ)
      → IsValid t
      → (check_ttl t k now).1 ≡ (if lapsed (expire_at t k) now then false else true)
  pub expire_at-check_ttl :
      (t : Ttl) (k j : Bytes) (now : ℤ)
      → IsValid t
      → expire_at (check_ttl t k now).0 j ≡ (
          if lapsed (expire_at t k) now
          then (if eqb k j then none else expire_at t j)
          else expire_at t j)
