-- ===== src/Tests/Storage.antt =====
-- Who may read the content of a concrete file.
use graphql_prisma_postgres.Prelude.{
  ℕ, ◌≡◌, ◌≤◌, ◌↔◌, refl, true, false, none, some, ◌+◌, [], ◌∷◌, arith,
}
use graphql_prisma_postgres.Storage.Content.{
  ContentRequest, allow, evaluate_file_content_access, MayRead,
  evaluate_file_content_access-MayRead,
}
use graphql_prisma_postgres.Effects.{done}
use graphql_prisma_postgres.Storage.State.{query, statement, ShareLink, Store, StoreEnv}
use graphql_prisma_postgres.Storage.ShareLinks.{
  access_shared, download_shared, get_share_link_by_token, increment_share_link_views,
}
use graphql_prisma_postgres.Storage.ShareLinks.Granted.{opens, downloads, granted, granted_bounded}

-- A link to a file that may be viewed once more.
abbrev pub shared : ShareLink
shared = record {
  id = 1;
  token = 77;
  file_id = some 3;
  folder_id = none;
  owner_id = 11;
  expires_at = 1000;
  max_views = some 3;
  views = 2;
  password = none;
}

abbrev pub shelf : Store
shelf = record { files = []; folders = []; links = shared ∷ []; clock = 0; calls = 0 }

abbrev pub prompt : StoreEnv
prompt = record {
  fate = λ _. done;
  delay = λ _. 1;
  cuid = λ n. n + 500;
  sha256 = λ s. s;
  provider = record {
    generate_signed_upload_url =
        λ n key. some (record { signed_url = 1; public_url = 2; expires_at = 1000 });
    generate_signed_download_url = λ n key. some 3;
    delete_file = λ n key. true;
    get_public_url = λ key. 2;
    file_exists = λ n key. some true;
    set_file_visibility = λ n key b. true;
    get_file_stream = λ n key. some 4;
  };
  file_proxy_mode = true;
  proxy_url = λ id. id;
  extname = λ name. [];
  basename = λ name ext. name;
  uuid = λ n. n ∷ [];
  id_text = λ id. id ∷ [];
}

-- Two requests with the link's token, of which the first has the last view.
granted_once : granted 1 (opens 77 0 ∷ downloads 77 0 ∷ []) prompt shelf ≡ 1
unfolding granted access_shared download_shared get_share_link_by_token increment_share_link_views
    query statement
granted_once = refl

granted_bounded_example :
    shared.views + granted 1 (opens 77 0 ∷ downloads 77 0 ∷ []) prompt shelf ≤ 3
granted_bounded_example =
    granted_bounded shared 3 (opens 77 0 ∷ downloads 77 0 ∷ []) prompt shelf (tt, tt) refl refl
      (omega arith)

-- User 11 asks for a private file of its own.
abbrev own_request : ContentRequest
own_request = record {
  file_id = 3;
  is_public = false;
  owner_id = 11;
  is_authenticated = true;
  user_id = some 11;
  role = none;
  file_view = none;
}

evaluate_file_content_access-MayRead_example :
    (evaluate_file_content_access own_request ≡ allow) ↔ ((id : ℕ) × MayRead own_request id)
evaluate_file_content_access-MayRead_example = evaluate_file_content_access-MayRead own_request refl
