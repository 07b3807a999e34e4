-- ===== src/Storage/Access/Filter.antt =====
-- The owner filter of a listing against the decision on each object, and who may change an object.
use druvia.Prelude.{
  String, eq_iff, opt_is, ◌≡◌, refl, ◌≢◌, ◌↔◌, Bool, true, false, Option, none, some, Result, ok,
  err, is_ok, arith,
}
use druvia.Storage.Access.{
  StorageProjectUserAccess, admin_only, StorageActor, platform_user, project_user,
  StorageObjectOperation, read, StorageAccessError, decide_storage_object_access,
  storage_owner_filter,
}

-- Whether a listing under the filter returns an object of that owner.
abbrev pub admits : Result StorageAccessError (Option String) → Option String → Bool
admits (ok none) object_owner = true
admits (ok (some uid)) object_owner = opt_is object_owner uid
admits (err e) object_owner = false

-- A listing shows an object exactly when a read of that object is allowed, whatever the preset, the
-- actor and the owner of the object.
pub storage_owner_filter-read :
    (preset : StorageProjectUserAccess) (actor : StorageActor) (exists : Bool)
    (object_owner : Option String)
    → is_ok (decide_storage_object_access preset actor read exists object_owner)
      ≡ admits (storage_owner_filter preset actor) object_owner
unfolding storage_owner_filter
storage_owner_filter-read admin_only (platform_user p u) exists object_owner = refl
storage_owner_filter-read preset actor exists object_owner = ground arith

-- A Project User changes an existing object, by a write or a delete, exactly when the object is
-- the user's own and the bucket is not restricted to administrators.
pub change_iff_own :
    (preset : StorageProjectUserAccess) (pid uid : String) (op : StorageObjectOperation)
    (object_owner : Option String)
    → op ≢ read
    → (is_ok (decide_storage_object_access preset (project_user pid uid) op true object_owner)
        ≡ true)
      ↔ ((preset ≢ admin_only) × (object_owner ≡ some uid))
unfolding decide_storage_object_access
change_iff_own admin_only pid uid op none changes = ground arith
change_iff_own preset pid uid op none changes = ground arith
change_iff_own preset pid uid op (some w) changes = ground (arith, eq_iff w uid)
