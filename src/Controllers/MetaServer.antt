-- ===== src/Controllers/MetaServer.antt =====
-- controllers/meta_server.go: the HTTP handlers that the brokers keep their metadata through.
pub mod Routes
use undermoon_operator.Prelude.{
  ℕ, Option, none, some, List, [], ◌∷◌, ◌++◌, Bytes, codes, bytes_eq, Bool, true, false, not,
  if◌then◌else◌,
}
use undermoon_operator.Controllers.Io.{
  Io, Outside, Result, ok, err, Error, external_store_conflict, pure, raise, handle, ask, request,
  lift, ◌>>=◌,
}
use undermoon_operator.Controllers.StorageController.{is_empty}
use undermoon_operator.Controllers.MetaStore.{
  split_first, extract_storage_name, ExternalStore, Codec, get_external_store,
  init_or_update_external_store, check_meta_secret,
}

-- What is written: a status with the code that the program names, with other text, or a store.
pub data Reply (J : Type 0) : Type 0 where
  coded : ℕ → Bytes → Reply J
  plain : ℕ → Reply J
  stored : ℕ → ExternalStore J → Reply J

-- The part of `gin.Context` that the handlers use; `replies` has the first write first. `body` is
-- what `ShouldBindJSON` finds.
pub record Context (J : Type 0) : Type 0 where
  pub storage_name : Bytes
  pub authorization : Bytes
  pub body : Result (ExternalStore J)
  pub cr_name : Option Bytes
  pub namespace : Option Bytes
  pub replies : List (Reply J)

abbrev pub code_invalid_basic_auth : Bytes
code_invalid_basic_auth = codes "INVALID_BASIC_AUTH"

abbrev pub code_invalid_storage_name : Bytes
code_invalid_storage_name = codes "INVALID_STORAGE_NAME"

abbrev pub code_storage_name_not_found : Bytes
code_storage_name_not_found = codes "UNDERMOON_STORAGE_NAME_NOT_FOUND"

abbrev pub code_incorrect_password : Bytes
code_incorrect_password = codes "INCORRECT_PASSWORD"

abbrev pub code_version_conflict : Bytes
code_version_conflict = codes "VERSION_CONFLICT"

module _ {J : Type 0} where
  -- `c.String` and `c.JSON`
  unfoldable pub reply : Reply J → Context J → Context J
  reply r c = record c { replies = c.replies ++ r ∷ [] }

  unfoldable pub set_names : Context J → Option (Bytes × Bytes) → Context J
  unfolding reply
  set_names c none = reply (coded 400 code_invalid_storage_name) c
  set_names c (some p) = record c { cr_name = some p.0; namespace = some p.1 }

  unfoldable pub extract_ctx : Context J → Context J
  unfolding set_names reply
  extract_ctx c =
      if is_empty c.storage_name
      then reply (coded 404 code_storage_name_not_found) c
      else set_names c (extract_storage_name c.storage_name)

  -- `retrieveCtx`, with the reply that it has written where it fails.
  unfoldable pub retrieve_names :
      Context J → Option Bytes → Option Bytes → Context J × Option (Bytes × Bytes)
  unfolding reply
  retrieve_names c none namespace = (reply (plain 500) c, none)
  retrieve_names c (some cr_name) none = (reply (plain 500) c, none)
  retrieve_names c (some cr_name) (some namespace) = (c, some (cr_name, namespace))

  unfoldable pub retrieve_ctx : Context J → Context J × Option (Bytes × Bytes)
  unfolding retrieve_names
  retrieve_ctx c = retrieve_names c c.cr_name c.namespace

-- The user name and the password of a header; `decode` stands for the decoding of base64.
module _ (decode : Bytes → Option Bytes) where
  unfoldable pub decoded_pair : Option Bytes → Option (Bytes × Bytes)
  unfolding split_first
  decoded_pair none = none
  decoded_pair (some payload) = split_first b':' payload

  unfoldable pub basic_pair : Option (Bytes × Bytes) → Option (Bytes × Bytes)
  unfolding decoded_pair
  basic_pair none = none
  basic_pair (some auth) =
      if not (bytes_eq auth.0 (codes "Basic")) then none else decoded_pair (decode auth.1)

  unfoldable pub credentials : Bytes → Option (Bytes × Bytes)
  unfolding basic_pair split_first
  credentials authorization = basic_pair (split_first b' ' authorization)

module _ {J E : Type 0} (codec : Codec J) (o : Outside E) (decode : Bytes → Option Bytes) where
  -- From the test of the user name on.
  unfoldable pub check_password :
      Context J → Bytes → Bytes → Option (Bytes × Bytes) → Io E (Context J)
  unfolding reply
  check_password c undermoon_name namespace none =
      pure (reply (coded 401 code_invalid_basic_auth) c)
  check_password c undermoon_name namespace (some pair) =
      if not (bytes_eq c.storage_name pair.0)
      then pure (reply (coded 401 code_invalid_basic_auth) c)
      else handle (check_meta_secret o undermoon_name namespace pair.1)
          (λ correct.
            if not correct then pure (reply (coded 401 code_incorrect_password) c) else pure c)
          (λ e. pure (reply (coded 401 code_invalid_basic_auth) c))

  unfoldable pub authenticate : Context J × Option (Bytes × Bytes) → Io E (Context J)
  unfolding check_password credentials reply
  authenticate (c, none) = pure c
  authenticate (c, some names) =
      if is_empty c.storage_name
      then pure (reply (coded 404 code_storage_name_not_found) c)
      else check_password c names.0 names.1 (credentials decode c.authorization)

  unfoldable pub basic_auth : Context J → Io E (Context J)
  unfolding authenticate retrieve_ctx
  basic_auth c = authenticate (retrieve_ctx c)

  unfoldable pub answer_get : Context J × Option (Bytes × Bytes) → Io E (Context J)
  unfolding reply
  answer_get (c, none) = pure c
  answer_get (c, some names) =
      handle (get_external_store codec o names.0 names.1) (λ s. pure (reply (stored 200 s) c))
        (λ e. pure (reply (plain 500) c))

  unfoldable pub handle_get_meta : Context J → Io E (Context J)
  unfolding answer_get retrieve_ctx
  handle_get_meta c = answer_get (retrieve_ctx c)

  unfoldable pub update_error_reply : Error → Reply J
  update_error_reply external_store_conflict = coded 409 code_version_conflict
  update_error_reply e = plain 400

  unfoldable pub update_with :
      Context J → Bytes × Bytes → Result (ExternalStore J) → Io E (Context J)
  unfolding reply update_error_reply
  update_with c names (err e) = pure (reply (plain 400) c)
  update_with c names (ok s) =
      handle (init_or_update_external_store codec o names.0 names.1 s)
        (λ _. pure (reply (plain 200) c)) (λ e. pure (reply (update_error_reply e) c))

  unfoldable pub answer_update : Context J × Option (Bytes × Bytes) → Io E (Context J)
  unfolding update_with
  answer_update (c, none) = pure c
  answer_update (c, some names) = update_with c names c.body

  unfoldable pub handle_update_meta : Context J → Io E (Context J)
  unfolding answer_update retrieve_ctx
  handle_update_meta c = answer_update (retrieve_ctx c)

  -- The handlers of the two routes, in the order of `serve`; the loggers and `Recovery` are left out.
  unfoldable pub query_route : List (Context J → Io E (Context J))
  unfolding extract_ctx handle_get_meta
  query_route = (λ c. pure (extract_ctx c)) ∷ handle_get_meta ∷ []

  unfoldable pub update_route : List (Context J → Io E (Context J))
  unfolding extract_ctx basic_auth handle_update_meta
  update_route = (λ c. pure (extract_ctx c)) ∷ basic_auth ∷ handle_update_meta ∷ []
