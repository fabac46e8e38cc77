-- ===== src/Storage/ShareLinks/Views.antt =====
-- The limit on the views of a share link.
use graphql_prisma_postgres.Prelude.{
  ℕ, ◌≤◌, ◌≡◌, ◌≢◌, inl, inr, refl, Bool, true, not, Option, none, some, List, [], ◌∷◌, arith,
  Option-cases, Bool-cases, ◌==◌, ltb, find?, find?-All, update_where, All, All-keep,
}
use mathlib.Core.Path.{subst}
use graphql_prisma_postgres.Storage.State.{ShareLink, Store, StoreEnv, Answer-cases, answer, tick}
use graphql_prisma_postgres.Storage.ShareLinks.{
  CreateShareLinkInput, has_view_left, get_share_link_by_token, count_view,
  increment_share_link_views, access_shared, verify_file, verify_folder, insert_share_link,
  create_share_link, delete_share_link, cleanup_expired_share_links,
}

abbrev WithinViews : Option ℕ → ℕ → Type 0
WithinViews none views = Unit
WithinViews (some most) views = views ≤ most

-- A link was viewed at most as often as it may be.
abbrev IsWithin : ShareLink → Type 0
IsWithin l = WithinViews l.max_views l.views

abbrev pub ViewsBounded : Store → Type 0
ViewsBounded w = All IsWithin w.links

abbrev pub OtherId : ℕ → ShareLink → Type 0
OtherId id l = l.id ≢ id

-- The ids are unique, as the primary key of the table is.
abbrev pub HasIds : List ShareLink → Type 0
HasIds [] = Unit
HasIds (l ∷ ls) = All (OtherId l.id) ls × HasIds ls

untouched :
    (id : ℕ) (ls : List ShareLink)
    → All (OtherId id) ls
    → update_where (λ l. l.id == id) count_view ls ≡ ls
untouched id [] h = refl
untouched id (l ∷ ls) (p, h) = ground (arith, p, untouched id ls h)

within_after : (l : ShareLink) → IsWithin l → has_view_left l ≡ true → IsWithin (count_view l)
within_after l h left = elim (Option-cases l.max_views) [
  | inl none_set ↦ ground (arith, none_set)
  | inr (most, set) ↦ ground (arith, set)
]

head_counted :
    (k : ShareLink) (ls : List ShareLink)
    → All (OtherId k.id) ls
    → IsWithin k
    → has_view_left k ≡ true
    → All IsWithin ls
    → All IsWithin (update_where (λ j. j.id == k.id) count_view (k ∷ ls))
head_counted k ls other b left h =
    (ground (arith, within_after k b left), rw (untouched k.id ls other) h)

counted :
    (p : ShareLink → Bool) (l : ShareLink) (ls : List ShareLink)
    → find? p ls ≡ some l
    → has_view_left l ≡ true
    → HasIds ls
    → All IsWithin ls
    → All IsWithin (update_where (λ j. j.id == l.id) count_view ls)
counted p l [] found left ids h = tt
counted p l (k ∷ ls) found left (other, ids) (b, h) = elim (Bool-cases (p k)) [
  | inl here ↦
      let same : k ≡ l = ground (arith, here) in
      subst (λ m. All IsWithin (update_where (λ j. j.id == m.id) count_view (k ∷ ls))) same
        (head_counted k ls other b (rw same left) h)
  | inr there ↦
      let found' : find? p ls ≡ some l = ground (arith, there) in
      let ne : l.id ≢ k.id = find?-All (OtherId k.id) p ls l other found' in
      (ground (arith, ne, b), counted p l ls found' left ids h)
]

increment-ViewsBounded :
    (p : ShareLink → Bool) (l : ShareLink) (env : StoreEnv) (w : Store)
    → find? p w.links ≡ some l
    → has_view_left l ≡ true
    → HasIds w.links
    → ViewsBounded w
    → ViewsBounded (increment_share_link_views l.id env w).1
unfolding increment_share_link_views
increment-ViewsBounded p l env w found left ids h =
    ground (arith, counted p l w.links found left ids h)

pub get_share_link_by_token-live :
    (token : ℕ) (l : ShareLink) (env : StoreEnv) (w : Store)
    → (get_share_link_by_token token env w).0 ≡ answer (some l)
    → (find? (λ j. j.token == token) w.links ≡ some l) × (has_view_left l ≡ true)
unfolding get_share_link_by_token
get_share_link_by_token-live token l env w e =
    elim (Option-cases (find? (λ j. j.token == token) w.links)) [
      | inl missing ↦ absurd (ground (arith, missing))
      | inr (k, found) ↦ (ground (arith, found), ground (arith, found))
    ]

pub get_share_link_by_token-world :
    (token : ℕ) (env : StoreEnv) (w : Store) → (get_share_link_by_token token env w).1 ≡ tick env w
unfolding get_share_link_by_token
get_share_link_by_token-world token env w = ground arith

-- A request for a shared file or folder keeps the stored count of views of every link within its
-- limit, however its calls end.
pub access_shared-ViewsBounded :
    (token password : ℕ) (env : StoreEnv) (w : Store)
    → HasIds w.links
    → ViewsBounded w
    → ViewsBounded (access_shared token password env w).1
unfolding access_shared
access_shared-ViewsBounded token password env w ids h =
    let moved = get_share_link_by_token-world token env w in
    elim (Answer-cases (get_share_link_by_token token env w).0) [
      | inr (thrown, q) ↦ ground (arith, q, moved)
      | inl (none, q) ↦ ground (arith, q, moved)
      | inl (some l, q) ↦
          let (found, left) = get_share_link_by_token-live token l env w q in
          ground (
            arith,
            q,
            moved,
            increment-ViewsBounded (λ j. j.token == token) l env (tick env w) found left ids h,
          )
    ]

-- The other operations on share links keep the limit too, however their calls end.
module _ (env : StoreEnv) (w : Store) (h : ViewsBounded w) where
  create_share_link-ViewsBounded :
      (input : CreateShareLinkInput) → ViewsBounded (create_share_link input env w).1
  unfolding create_share_link verify_file verify_folder insert_share_link
  create_share_link-ViewsBounded input = ground arith

  delete_share_link-ViewsBounded :
      (id owner : ℕ) → ViewsBounded (delete_share_link id owner env w).1
  unfolding delete_share_link
  delete_share_link-ViewsBounded id owner =
      ground (arith, All-keep IsWithin (λ l. not (l.id == id)) w.links h)

  cleanup-ViewsBounded : ViewsBounded (cleanup_expired_share_links env w).1
  unfolding cleanup_expired_share_links
  cleanup-ViewsBounded =
      ground (arith, All-keep IsWithin (λ l. not (ltb l.expires_at (tick env w).clock)) w.links h)
