-- ===== src/Storage/Content.antt =====
-- services/storage/src/utils/file-content-access.ts: who may read the content of a file.
use graphql_prisma_postgres.Prelude.{
  ℕ, ◌≡◌, ◌⊎◌, ◌↔◌, inl, inr, Bool, true, false, not, ◌||◌, Option, none, some, arith, Option-cases,
  Bool-cases, ◌==◌, if◌then◌else◌, text, truthy,
}

pub data FileContentAccessDecision : Type 0 where
  allow unauthorized forbidden : FileContentAccessDecision

-- The claims of a token for the view of one file.
pub record FileView : Type 0 where
  pub file_id : ℕ
  pub owner_id : ℕ

pub record ContentRequest : Type 0 where
  pub file_id : ℕ
  pub is_public : Bool
  pub owner_id : ℕ
  pub is_authenticated : Bool
  pub user_id : Option ℕ
  pub role : Option ℕ
  pub file_view : Option FileView

abbrev pub is_other_view : ContentRequest → Bool
is_other_view r = elim r.file_view [ none ↦ false | some v ↦ not (v.file_id == r.file_id) ]

abbrev pub is_administrator : Option ℕ → Bool
is_administrator none = false
is_administrator (some role) = role == text "ADMIN"

-- The user, where it is not the empty text.
abbrev pub present_user : Option ℕ → Option ℕ
present_user none = none
present_user (some id) = if truthy id then some id else none

abbrev pub decide_for : ContentRequest → Option ℕ → FileContentAccessDecision
decide_for r none = unauthorized
decide_for r (some id) =
    if r.is_authenticated
    then (if r.owner_id == id || is_administrator r.role then allow else forbidden)
    else unauthorized

unfoldable pub evaluate_file_content_access : ContentRequest → FileContentAccessDecision
evaluate_file_content_access r =
    if r.is_public
    then allow
    else if is_other_view r
    then forbidden
    else decide_for r (present_user r.user_id)

-- An authenticated user who owns the file, or is an administrator, with no token for another file.
pub record MayRead (r : ContentRequest) (id : ℕ) : Type 0 where
  pub named : r.user_id ≡ some id
  pub not_empty : truthy id ≡ true
  pub authenticated : r.is_authenticated ≡ true
  pub entitled : (r.owner_id ≡ id) ⊎ (is_administrator r.role ≡ true)
  pub own_view : is_other_view r ≡ false

allowed_reader :
    (r : ContentRequest)
    → r.is_public ≡ false
    → evaluate_file_content_access r ≡ allow
    → (id : ℕ) × MayRead r id
unfolding evaluate_file_content_access
allowed_reader r hidden e = elim (Option-cases r.user_id) [
  | inl missing ↦ absurd (ground (arith, missing))
  | inr (id, there) ↦ (
    id,
    record {
      named = there;
      not_empty = ground (arith, there);
      authenticated = ground (arith, there);
      entitled = elim (Bool-cases (is_administrator r.role)) [
        | inl admin ↦ inr admin
        | inr plain ↦ inl (ground (arith, there, plain))
      ];
      own_view = ground (arith, there);
    },
  )
]

reader_allowed :
    (r : ContentRequest) (id : ℕ) → MayRead r id → evaluate_file_content_access r ≡ allow
unfolding evaluate_file_content_access
reader_allowed r id m = elim (m.entitled) [
  | inl own ↦ ground (arith, m.named, m.not_empty, m.authenticated, own, m.own_view)
  | inr admin ↦ ground (arith, m.named, m.not_empty, m.authenticated, admin, m.own_view)
]

-- The content of a file that is not public is read exactly by authenticated users who own the file or
-- are administrators, and who bring no token for the view of another file.
pub evaluate_file_content_access-MayRead :
    (r : ContentRequest)
    → r.is_public ≡ false
    → (evaluate_file_content_access r ≡ allow) ↔ ((id : ℕ) × MayRead r id)
evaluate_file_content_access-MayRead r hidden =
    (allowed_reader r hidden, λ (id, m). reader_allowed r id m)
