-- ===== src/Controllers/MetaServer/Routes.antt =====
-- controllers/meta_server.go: what the chain of the update route does.
use undermoon_operator.Prelude.{◌≡◌, ◌≢◌, ap, ◌∙◌, arith, Option, none, some, List, [], ◌∷◌, Bytes}
use undermoon_operator.Controllers.Io.{Io, Outside, World, ok, pure, ◌>>=◌}
use undermoon_operator.Controllers.StorageController.{is_empty}
use undermoon_operator.Controllers.MetaStore.{extract_storage_name, Codec}
use undermoon_operator.Controllers.MetaServer.{
  Context, coded, reply, set_names, extract_ctx, retrieve_names, retrieve_ctx, credentials,
  check_password, authenticate, basic_auth, handle_update_meta, update_route,
  code_invalid_basic_auth,
}

-- The context with the names that the first handler has put into it.
abbrev pub named : {J : Type 0} → Context J → Bytes → Bytes → Context J
named c undermoon_name namespace = record c {
  cr_name = some undermoon_name;
  namespace = some namespace;
}

bind_pure : {E A : Type 0} (m : Io E A) (w : World E) → (m >>= pure) w ≡ m w
unfolding ◌>>=◌
bind_pure m w = ground arith

bind_ok :
    {E A B : Type 0} (m : Io E A) (f : A → Io E B) (w w' : World E) (a : A)
    → m w ≡ (ok a, w')
    → (m >>= f) w ≡ f a w'
unfolding ◌>>=◌
bind_ok m f w w' a h = ground (arith, h)

module _ {J E : Type 0} (codec : Codec J) (o : Outside E) (decode : Bytes → Option Bytes)
    (chain : List (Context J → Io E (Context J)) → Context J → Io E (Context J))
    (chain-nil : (c : Context J) → chain [] c ≡ pure c)
    (chain-cons : (m : Context J → Io E (Context J)) (ms : List (Context J → Io E (Context J)))
        (c : Context J)
      → chain (m ∷ ms) c ≡ (m c >>= chain ms))
    (c : Context J) (undermoon_name namespace : Bytes) (given : c.storage_name ≢ [])
    (extracted : extract_storage_name c.storage_name ≡ some (undermoon_name, namespace)) where
  extract_ctx-named : extract_ctx c ≡ named c undermoon_name namespace
  unfolding extract_ctx set_names is_empty
  extract_ctx-named = ground (arith, extracted)

  extracted_run :
      (w : World E) → pure {E = E} (extract_ctx c) w ≡ (ok (named c undermoon_name namespace), w)
  unfolding ◌>>=◌
  extracted_run w = ap (λ c'. (ok c', w)) extract_ctx-named

  basic_auth_refused :
      (w : World E)
      → credentials decode c.authorization ≡ none
      → basic_auth codec o decode (named c undermoon_name namespace) w
        ≡ (ok (reply (coded 401 code_invalid_basic_auth) (named c undermoon_name namespace)), w)
  unfolding basic_auth authenticate retrieve_ctx retrieve_names check_password is_empty ◌>>=◌
  basic_auth_refused w h = ground (arith, h)

  -- If each handler of a chain runs after the one before, a request to update the store that has a
  -- valid storage name, but credentials that cannot be read, is answered with 401 first and then
  -- handled like any other: the chain ends as the handler of the update does.
  pub update_route_unauthorized :
      (w : World E)
      → credentials decode c.authorization ≡ none
      → chain (update_route codec o decode) c w
        ≡ handle_update_meta codec o decode
            (reply (coded 401 code_invalid_basic_auth) (named c undermoon_name namespace))
            w
  unfolding update_route
  update_route_unauthorized w h =
      let refused : Context J =
        reply (coded 401 code_invalid_basic_auth) (named c undermoon_name namespace) in
      let update : List (Context J → Io E (Context J)) = handle_update_meta codec o decode ∷ [] in
      let auth : List (Context J → Io E (Context J)) = basic_auth codec o decode ∷ update in
      let extract : Context J → Io E (Context J) = λ c'. pure (extract_ctx c') in
      ap (λ m. m w) (chain-cons extract auth c)
      ∙ bind_ok (extract c) (chain auth) w w (named c undermoon_name namespace) (extracted_run w)
      ∙ ap (λ m. m w)
          (chain-cons (basic_auth codec o decode) update (named c undermoon_name namespace))
      ∙ bind_ok (basic_auth codec o decode (named c undermoon_name namespace)) (chain update) w w
          refused (basic_auth_refused w h)
      ∙ ap (λ m. m w) (chain-cons (handle_update_meta codec o decode) [] refused)
      ∙ ap
          (λ (k : Context J → Io E (Context J)).
            (handle_update_meta codec o decode refused >>= k) w)
          (λ i c'. chain-nil c' i)
      ∙ bind_pure (handle_update_meta codec o decode refused) w
