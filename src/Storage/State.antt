-- ===== src/Storage/State.antt =====
-- The storage service's database as a state. Every call of it picks how it ends from the environment,
-- as in Effects; an error carries its HTTP status.
use graphql_prisma_postgres.Prelude.{
  ℕ, ◌+◌, ◌≡◌, ◌⊎◌, inl, inr, refl, Bool, true, false, Option, none, some, List,
}
use graphql_prisma_postgres.Effects.{Fate, done, refused, lost, PrismaCode}

-- services/storage/prisma/schema.prisma. A file's provider, its dates and its metadata are left out.
pub data FileStatus : Type 0 where
  pending uploaded failed deleted : FileStatus

pub record StoredFile : Type 0 where
  pub id : ℕ
  pub filename : List ℕ
  pub original_name : List ℕ
  pub mime_type : ℕ
  pub size : ℕ
  pub storage_key : List ℕ
  pub status : FileStatus
  pub folder_id : Option ℕ
  pub owner_id : ℕ
  pub is_public : Bool
  pub expires_at : Option ℕ

pub record Folder : Type 0 where
  pub id : ℕ
  pub name : List ℕ
  pub path : List ℕ
  pub parent_id : Option ℕ
  pub owner_id : ℕ
  pub is_public : Bool

-- A limit on the views that is negative reads as 0: both let nobody in.
pub record ShareLink : Type 0 where
  pub id : ℕ
  pub token : ℕ
  pub file_id : Option ℕ
  pub folder_id : Option ℕ
  pub owner_id : ℕ
  pub expires_at : ℕ
  pub max_views : Option ℕ
  pub views : ℕ
  pub password : Option ℕ

pub record Store : Type 0 where
  pub files : List StoredFile
  pub folders : List Folder
  pub links : List ShareLink
  pub clock : ℕ
  pub calls : ℕ

-- What a provider signs an upload with.
pub record SignedUpload : Type 0 where
  pub signed_url : ℕ
  pub public_url : ℕ
  pub expires_at : ℕ

-- services/storage/src/providers/base.provider.ts, as it answers by the number of calls made so far; a
-- call that throws has no result, or is not done.
pub record Provider : Type 0 where
  pub generate_signed_upload_url : ℕ → List ℕ → Option SignedUpload
  pub generate_signed_download_url : ℕ → List ℕ → Option ℕ
  pub delete_file : ℕ → List ℕ → Bool
  pub get_public_url : List ℕ → ℕ
  pub file_exists : ℕ → List ℕ → Option Bool
  pub set_file_visibility : ℕ → List ℕ → Bool → Bool
  pub get_file_stream : ℕ → List ℕ → Option ℕ

pub record StoreEnv : Type 0 where
  pub fate : ℕ → Fate
  pub delay : ℕ → ℕ
  -- `cuid()`, by the number of calls made so far
  pub cuid : ℕ → ℕ
  -- SHA-256 in hexadecimal
  pub sha256 : ℕ → ℕ
  pub provider : Provider
  -- `FILE_PROXY_MODE`
  pub file_proxy_mode : Bool
  -- `getProxyUrl`, of a file's id
  pub proxy_url : ℕ → ℕ
  -- `path.extname`, `path.basename` without the extension, and `uuidv4()`
  pub extname : List ℕ → List ℕ
  pub basename : List ℕ → List ℕ → List ℕ
  pub uuid : ℕ → List ℕ
  -- An identifier as text
  pub id_text : ℕ → List ℕ

-- `statusCode`; an error of the database and one of the provider have none.
pub data Failure : Type 0 where
  bad_request access_denied missing_row already_there internal provider_failed : Failure
  database : PrismaCode → Failure

pub data Answer (A : Type 0) : Type 0 where
  answer : A → Answer A
  failure : Failure → Answer A

pub Answer-cases :
    {A : Type 0} (r : Answer A) → ((a : A) × (r ≡ answer a)) ⊎ ((e : Failure) × (r ≡ failure e))
Answer-cases (answer a) = inl (a, refl)
Answer-cases (failure e) = inr (e, refl)

abbrev pub S : Type 0 → Type 0
S A = StoreEnv → Store → Answer A × Store

abbrev pub return : {A : Type 0} → A → S A
return a env w = (answer a, w)

abbrev pub fail : {A : Type 0} → Failure → S A
fail e env w = (failure e, w)

abbrev pub and_then : {A B : Type 0} → Answer A × Store → (A → S B) → StoreEnv → Answer B × Store
and_then (answer a, w) k env = k a env w
and_then (failure e, w) k env = (failure e, w)

infixl 5 ◌>>=◌ ◌>>◌
abbrev pub ◌>>=◌ : {A B : Type 0} → S A → (A → S B) → S B
(m >>= k) env w = and_then (m env w) k env

abbrev pub ◌>>◌ : {A B : Type 0} → S A → S B → S B
(m >> k) env w = and_then (m env w) (λ _. k) env

abbrev pub demand : Bool → Failure → S (Unit {0})
demand true e env w = (answer tt, w)
demand false e env w = (failure e, w)

abbrev pub or_fail : {A : Type 0} → Option A → Failure → S A
or_fail none e env w = (failure e, w)
or_fail (some a) e env w = (answer a, w)

abbrev pub tick : StoreEnv → Store → Store
tick env w = record w { clock = w.clock + env.delay w.calls; calls = w.calls + 1 }

unfoldable pub query : {A : Type 0} → (Store → A) → S A
query f env w = elim (env.fate w.calls) [
  | done ↦ (answer (f (tick env w)), tick env w)
  | refused c ↦ (failure (database c), tick env w)
  | lost c ↦ (failure (database c), tick env w)
]

unfoldable pub statement : {A : Type 0} → (Store → Answer A × Store) → S A
statement f env w = elim (env.fate w.calls) [
  | done ↦ f (tick env w)
  | refused c ↦ (failure (database c), tick env w)
  | lost c ↦ (failure (database c), (f (tick env w)).1)
]
