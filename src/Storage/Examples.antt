-- ===== src/Storage/Examples.antt =====
-- Storage access and object paths, on examples. The normal form of an ASCII text is the text.
use druvia.Prelude.{String, ◌≡◌, ◌≢◌, ◌↔◌, true, Option, some, is_ok}
use druvia.Storage.Access.{
  owner_only, authenticated_read, admin_only, project_user, read, write,
  decide_storage_object_access, storage_owner_filter,
}
use druvia.Storage.Access.Filter.{admits, storage_owner_filter-read, change_iff_own}

storage_owner_filter-read_example :
    is_ok (decide_storage_object_access owner_only (project_user "p" "u") read true (some "v"))
    ≡ admits (storage_owner_filter owner_only (project_user "p" "u")) (some "v")
storage_owner_filter-read_example =
    storage_owner_filter-read owner_only (project_user "p" "u") true (some "v")

abbrev user : Option String
user = some "u"

change_iff_own_example :
    (is_ok (decide_storage_object_access authenticated_read (project_user "p" "u") write true user)
      ≡ true)
    ↔ ((authenticated_read ≢ admin_only) × (user ≡ some "u"))
change_iff_own_example = change_iff_own authenticated_read "p" "u" write user (λ e. absurd (cc e))
