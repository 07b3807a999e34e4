-- ===== src/ProjectActor/Context/RoundTrip.antt =====
-- A context that is resolved or parsed is parsed again to itself.
use druvia.Prelude.{
  ℕ, leb, String, str_eq, eq_iff, str_eq_self, ◌≡◌, arith, Bool, true, ◌&&◌, Option, none, some, [],
  ◌∷◌, Result, ok, guard, >>=-eq-ok, inl, inr, Bool-cases,
}
use druvia.Authorization.{RequestUser}
use druvia.ProjectActor.Context.{
  JsonValue, text, integer, undefined, JsonObject, ProjectActorContext, platform_user, project_user,
  apikey, ProjectActorError, required_error, lookup, has_only_keys, is_text, is_version,
  platform_keys, project_user_keys, apikey_keys, platform_subject, project_user_subject,
  apikey_subject, is_valid_string, is_positive, valid_text, positive, optional_text, parse_platform,
  parse_project_user, parse_apikey, parse_type, parse_object, parse_project_actor_context,
  resolve_scoped_project_actor,
}

abbrev tenant_entry : Option String → JsonObject
tenant_entry none = []
tenant_entry (some t) = ("tenantId", text t) ∷ []

-- The context as the object that it is.
abbrev pub as_object : ProjectActorContext → JsonObject
as_object (platform_user a) =
    ("version", integer 1)
    ∷ ("actorType", text "platform_user")
    ∷ ("source", text "platform_session")
    ∷ ("projectId", text a.project_id)
    ∷ ("subject", text a.subject)
    ∷ ("role", text a.role)
    ∷ ("platformUserId", text a.platform_user_id)
    ∷ ("platformUid", integer a.platform_uid)
    ∷ tenant_entry a.tenant_id
as_object (project_user a) =
    ("version", integer 1)
    ∷ ("actorType", text "project_user")
    ∷ ("source", text "project_session")
    ∷ ("projectId", text a.project_id)
    ∷ ("subject", text a.subject)
    ∷ ("role", text "authenticated")
    ∷ ("projectUserId", text a.project_user_id)
    ∷ ("provider", text a.provider)
    ∷ []
as_object (apikey a) =
    ("version", integer 1)
    ∷ ("actorType", text "apikey")
    ∷ ("source", text "project_api_key")
    ∷ ("projectId", text a.project_id)
    ∷ ("subject", text a.subject)
    ∷ ("role", text "anon")
    ∷ ("apiKeyId", integer a.api_key_id)
    ∷ ("apiKeyPrefix", text a.api_key_prefix)
    ∷ []

module _ (trim : String → String) (utf16_length : String → ℕ) (show_number : ℕ → String) where
  abbrev valid : String → Bool
  valid = is_valid_string trim utf16_length show_number

  abbrev valid_tenant : Option String → Bool
  valid_tenant none = true
  valid_tenant (some t) = valid t

  -- What holds of a context that the parser accepts.
  pub is_well_formed : ProjectActorContext → Bool
  is_well_formed (platform_user a) =
      valid a.project_id
      && (valid a.subject
          && (valid a.role
              && (valid a.platform_user_id
                  && (is_positive a.platform_uid
                      && (str_eq a.subject (platform_subject a.platform_user_id)
                          && valid_tenant a.tenant_id)))))
  is_well_formed (project_user a) =
      valid a.project_id
      && (valid a.subject
          && (valid "authenticated"
              && (valid a.project_user_id
                  && (valid a.provider
                      && str_eq a.subject (project_user_subject a.project_user_id)))))
  is_well_formed (apikey a) =
      valid a.project_id
      && (valid a.subject
          && (valid "anon"
              && (is_positive a.api_key_id
                  && (valid a.api_key_prefix
                      && (leb (utf16_length a.api_key_prefix) 12
                          && str_eq a.subject
                              (apikey_subject trim utf16_length show_number a.api_key_id))))))

  abbrev parse : Option JsonObject → Result ProjectActorError ProjectActorContext
  parse = parse_project_actor_context trim utf16_length show_number

  complete_platform :
      (pid subject role id : String) (uid : ℕ) (tenant : Option String)
      → is_well_formed (
          platform_user (record {
            project_id = pid;
            subject = subject;
            role = role;
            platform_user_id = id;
            platform_uid = uid;
            tenant_id = tenant;
          }))
        ≡ true
      → parse (
          some (
            as_object (
              platform_user (record {
                project_id = pid;
                subject = subject;
                role = role;
                platform_user_id = id;
                platform_uid = uid;
                tenant_id = tenant;
              }))))
        ≡ ok (
            platform_user (record {
              project_id = pid;
              subject = subject;
              role = role;
              platform_user_id = id;
              platform_uid = uid;
              tenant_id = tenant;
            }))
  unfolding parse_project_actor_context is_well_formed lookup
  complete_platform pid subject role id uid none h = ground arith
  complete_platform pid subject role id uid (some t) h = ground arith

  complete : (a : ProjectActorContext) → is_well_formed a ≡ true → parse (some (as_object a)) ≡ ok a
  unfolding parse_project_actor_context is_well_formed lookup
  complete (platform_user a) h = complete_platform _ _ _ _ _ _ h
  complete (project_user a) h = ground arith
  complete (apikey a) h = ground arith

  abbrev checked : Option JsonValue → Result ProjectActorError String
  checked = valid_text trim utf16_length show_number

  valid_text-ok :
      (v : Option JsonValue) (s : String)
      → valid_text trim utf16_length show_number v ≡ ok s
      → valid s ≡ true
  unfolding valid_text
  valid_text-ok none s h = ground arith
  valid_text-ok (some (text t)) s h = ground arith
  valid_text-ok (some other_value) s h = ground arith

  positive-ok : (v : Option JsonValue) (n : ℕ) → positive v ≡ ok n → is_positive n ≡ true
  unfolding positive
  positive-ok none n h = ground arith
  positive-ok (some (integer m)) n h = ground arith
  positive-ok (some other_value) n h = ground arith

  optional_text-ok :
      (v : Option JsonValue) (t : Option String)
      → optional_text trim utf16_length show_number v ≡ ok t
      → valid_tenant t ≡ true
  unfolding optional_text valid_text
  optional_text-ok none t h = ground arith
  optional_text-ok (some undefined) t h = ground arith
  optional_text-ok (some (text s)) t h = ground arith
  optional_text-ok (some other_value) t h = ground arith

  module _ (o : JsonObject) (pid subject role : String) (a : ProjectActorContext)
      (p : valid pid ≡ true) (s : valid subject ≡ true) (r : valid role ≡ true) where
    platform_sound :
        parse_platform trim utf16_length show_number o pid subject role ≡ ok a
        → is_well_formed a ≡ true
    unfolding parse_platform is_well_formed
    platform_sound h =
        let (_, keys, h1) = >>=-eq-ok (guard (has_only_keys o platform_keys) required_error) _ h in
        let (_, src, h2) =
          >>=-eq-ok (guard (is_text (lookup "source" o) "platform_session") required_error) _ h1 in
        let (id, id_ok, h3) = >>=-eq-ok (checked (lookup "platformUserId" o)) _ h2 in
        let (uid, uid_ok, h4) = >>=-eq-ok (positive (lookup "platformUid" o)) _ h3 in
        let (_, sub, h5) =
          >>=-eq-ok (guard (str_eq subject (platform_subject id)) required_error) _ h4 in
        let (t, t_ok, same) =
          >>=-eq-ok (optional_text trim utf16_length show_number (lookup "tenantId" o)) _ h5 in
        ground
          (arith, valid_text-ok _ id id_ok, positive-ok _ uid uid_ok, optional_text-ok _ t t_ok)

    project_user_sound :
        parse_project_user trim utf16_length show_number o pid subject role ≡ ok a
        → is_well_formed a ≡ true
    unfolding parse_project_user is_well_formed
    project_user_sound h =
        let (_, keys, h1) =
          >>=-eq-ok (guard (has_only_keys o project_user_keys) required_error) _ h in
        let (_, src, h2) =
          >>=-eq-ok (guard (is_text (lookup "source" o) "project_session") required_error) _ h1 in
        let (_, fixed, h3) = >>=-eq-ok (guard (str_eq role "authenticated") required_error) _ h2 in
        let (id, id_ok, h4) = >>=-eq-ok (checked (lookup "projectUserId" o)) _ h3 in
        let (provider, provider_ok, h5) = >>=-eq-ok (checked (lookup "provider" o)) _ h4 in
        ground (
          arith,
          valid_text-ok _ id id_ok,
          valid_text-ok _ provider provider_ok,
          eq_iff role "authenticated",
        )

    apikey_sound :
        parse_apikey trim utf16_length show_number o pid subject role ≡ ok a
        → is_well_formed a ≡ true
    unfolding parse_apikey is_well_formed
    apikey_sound h =
        let (_, keys, h1) = >>=-eq-ok (guard (has_only_keys o apikey_keys) required_error) _ h in
        let (_, src, h2) =
          >>=-eq-ok (guard (is_text (lookup "source" o) "project_api_key") required_error) _ h1 in
        let (_, fixed, h3) = >>=-eq-ok (guard (str_eq role "anon") required_error) _ h2 in
        let (id, id_ok, h4) = >>=-eq-ok (positive (lookup "apiKeyId" o)) _ h3 in
        let (prefix, prefix_ok, h5) = >>=-eq-ok (checked (lookup "apiKeyPrefix" o)) _ h4 in
        ground (arith, positive-ok _ id id_ok, valid_text-ok _ prefix prefix_ok, eq_iff role "anon")

    type_sound :
        parse_type trim utf16_length show_number o pid subject role ≡ ok a → is_well_formed a ≡ true
    unfolding parse_type
    type_sound h = elim (Bool-cases (is_text (lookup "actorType" o) "platform_user")) [
      | inl platform ↦ platform_sound (ground arith)
      | inr not_platform ↦ elim (Bool-cases (is_text (lookup "actorType" o) "project_user")) [
        | inl user ↦ project_user_sound (ground arith)
        | inr not_user ↦ elim (Bool-cases (is_text (lookup "actorType" o) "apikey")) [
          | inl key ↦ apikey_sound (ground arith)
          | inr nothing ↦ absurd (ground arith)
        ]
      ]
    ]

  object_sound :
      (o : JsonObject) (a : ProjectActorContext)
      → parse_object trim utf16_length show_number o ≡ ok a
      → is_well_formed a ≡ true
  unfolding parse_object
  object_sound o a h =
      let (_, version, h1) =
        >>=-eq-ok (guard (is_version (lookup "version" o)) required_error) _ h in
      let (pid, pid_ok, h2) = >>=-eq-ok (checked (lookup "projectId" o)) _ h1 in
      let (subject, subject_ok, h3) = >>=-eq-ok (checked (lookup "subject" o)) _ h2 in
      let (role, role_ok, h4) = >>=-eq-ok (checked (lookup "role" o)) _ h3 in
      type_sound o pid subject role a (valid_text-ok _ pid pid_ok)
        (valid_text-ok _ subject subject_ok) (valid_text-ok _ role role_ok) h4

  -- A value that is parsed gives a well-formed context, and parsing that context again gives it
  -- back: no field is lost or changed.
  pub parse_project_actor_context_round_trip :
      (v : Option JsonObject) (a : ProjectActorContext)
      → parse v ≡ ok a
      → (is_well_formed a ≡ true) × (parse (some (as_object a)) ≡ ok a)
  unfolding parse_project_actor_context
  parse_project_actor_context_round_trip none a h = cc
  parse_project_actor_context_round_trip (some o) a h =
      (object_sound o a h, complete a (object_sound o a h))

  -- What the resolution relies on of trim and of String(n): a text that starts with one of the tags
  -- of a subject, or is a role, is not blank.
  pub record IsTrim : Type 0 where
    pub project_user : (s : String) → valid (project_user_subject s) ≡ true
    pub apikey : (n : ℕ) → valid (apikey_subject trim utf16_length show_number n) ≡ true
    pub authenticated : valid "authenticated" ≡ true
    pub anon : valid "anon" ≡ true

  -- For a project that is no blank text: the context that is resolved for a Project User or an API
  -- key is accepted by the parser, unchanged.
  pub parse-resolve_scoped_project_actor :
      IsTrim
      → (user : RequestUser) (pid : String) (a : ProjectActorContext)
      → is_valid_string trim utf16_length show_number pid ≡ true
      → resolve_scoped_project_actor trim utf16_length show_number user pid ≡ ok a
      → parse (some (as_object a)) ≡ ok a
  unfolding resolve_scoped_project_actor is_well_formed
  parse-resolve_scoped_project_actor laws (RequestUser.platform_user u) pid a named h = cc
  parse-resolve_scoped_project_actor laws (RequestUser.project_user u) pid a named h = complete a (
      ground (
        arith,
        laws.project_user u.sub,
        laws.authenticated,
        str_eq_self (project_user_subject u.sub),
      ))
  parse-resolve_scoped_project_actor laws (RequestUser.apikey u) pid a named h = complete a (
      ground (
        arith,
        laws.apikey u.api_key_id,
        laws.anon,
        str_eq_self (apikey_subject trim utf16_length show_number u.api_key_id),
      ))
