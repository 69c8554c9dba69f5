-- ===== src/Expiry/Managed.antt =====
-- The manager of pkg/memdb/db.go fills the interface, whatever the hash.
use tinyredis.Prelude.{ℕ, Bytes}
use tinyredis.Expiry.{Expiry}
use tinyredis.Ttl
use tinyredis.Ttl.{TtlManager, new_ttl_manager}
use tinyredis.Ttl.Laws
use tinyredis.Ttl.New.{new_ttl_manager-IsValid, expire_at-new_ttl_manager}

unfoldable pub managed : (Bytes → ℕ) → Expiry
managed murmur = record {
  Ttl = TtlManager;
  IsValid = Laws.IsValid;
  new_ttl = new_ttl_manager;
  expire_at = Ttl.expire_at murmur;
  set_ttl = Ttl.set_ttl murmur;
  remove_ttl = Ttl.remove_ttl murmur;
  check_ttl = Ttl.check_ttl murmur;
  new_ttl-IsValid = new_ttl_manager-IsValid;
  expire_at-new_ttl = expire_at-new_ttl_manager murmur;
  set_ttl-IsValid = Laws.set_ttl-IsValid murmur;
  expire_at-set_ttl = Laws.expire_at-set_ttl murmur;
  remove_ttl-IsValid = Laws.remove_ttl-IsValid murmur;
  expire_at-remove_ttl = Laws.expire_at-remove_ttl murmur;
  check_ttl-IsValid = Laws.check_ttl-IsValid murmur;
  check_ttl_live = Laws.check_ttl_live murmur;
  expire_at-check_ttl = Laws.expire_at-check_ttl murmur;
}
