-- ===== src/Storage/ShareLinks/Granted.antt =====
-- The views of a share link that requests are granted, at services/storage/src/routes/share.routes.ts.
use graphql_prisma_postgres.Prelude.{
  ℕ, ◌+◌, ◌≤◌, ◌≡◌, ◌≢◌, ◌⊎◌, inl, inr, refl, sym, Bool, true, false, none, some, List, [], ◌∷◌,
  arith, Bool-cases, ◌==◌, if◌then◌else◌, find?, find?-All, find?-some, update_where,
  All-update_where,
}
use mathlib.Core.Path.{subst}
use graphql_prisma_postgres.Storage.State.{
  ShareLink, Store, StoreEnv, Failure, missing_row, access_denied, database, return, ◌>>◌, Answer,
  Answer-cases, answer, failure, tick,
}
use graphql_prisma_postgres.Storage.Reading.{Fate-cases}
use graphql_prisma_postgres.Storage.ShareLinks.{
  has_view_left, get_share_link_by_token, count_view, increment_share_link_views, passes_password,
  access_shared, has_shared_file, download_shared,
}
use graphql_prisma_postgres.Storage.ShareLinks.Views.{
  HasIds, OtherId, get_share_link_by_token-live, get_share_link_by_token-world,
}

-- A request for what is shared, with a token and a password.
pub data SharedRequest : Type 0 where
  opens : ℕ → ℕ → SharedRequest
  downloads : ℕ → ℕ → SharedRequest

abbrev pub run_shared : SharedRequest → StoreEnv → Store → Answer ShareLink × Store
run_shared (opens token password) env w = access_shared token password env w
run_shared (downloads token password) env w = download_shared token password env w

-- The request goes on to the content of the link.
abbrev pub views_of : ℕ → Answer ShareLink → ℕ
views_of id (answer l) = if l.id == id then 1 else 0
views_of id (failure e) = 0

-- How many of the requests, one after the other, go on to the content of the link.
unfoldable pub granted : ℕ → List SharedRequest → StoreEnv → Store → ℕ
granted id [] env w = 0
granted id (r ∷ rs) env w =
    views_of id (run_shared r env w).0 + granted id rs env (run_shared r env w).1

counted_links : ℕ → List ShareLink → List ShareLink
counted_links id ls = update_where (λ j. j.id == id) count_view ls

find?-id :
    (p : ShareLink → Bool) (ls : List ShareLink) (k : ShareLink)
    → HasIds ls
    → find? p ls ≡ some k
    → find? (λ j. j.id == k.id) ls ≡ some k
find?-id p [] k ids found = absurd (ground (arith, found))
find?-id p (x ∷ ls) k (other, ids) found = elim (Bool-cases (p x)) [
  | inl here ↦ let same : x ≡ k = ground (arith, here) in rw same (ground arith)
  | inr there ↦
      let found' : find? p ls ≡ some k = ground (arith, there) in
      let ne : k.id ≢ x.id = find?-All (OtherId x.id) p ls k other found' in
      ground (arith, ne, find?-id p ls k ids found')
]

HasIds-counted : (id : ℕ) (ls : List ShareLink) → HasIds ls → HasIds (counted_links id ls)
unfolding counted_links
HasIds-counted id [] ids = tt
HasIds-counted id (l ∷ ls) (other, ids) = (
  elim (Bool-cases (l.id == id)) [
    | inl y ↦
        rw y (All-update_where (OtherId l.id) (λ j. j.id == id) count_view ls (λ j ne. ne) other)
    | inr n ↦
        rw n (All-update_where (OtherId l.id) (λ j. j.id == id) count_view ls (λ j ne. ne) other)
  ],
  HasIds-counted id ls ids,
)

find?-counted :
    (id i : ℕ) (ls : List ShareLink) (l : ShareLink)
    → find? (λ j. j.id == id) ls ≡ some l
    → find? (λ j. j.id == id) (counted_links i ls) ≡ some (if l.id == i then count_view l else l)
unfolding counted_links
find?-counted id i [] l found = absurd (ground (arith, found))
find?-counted id i (x ∷ ls) l found = elim (Bool-cases (x.id == id)) [
  | inl here ↦
      let same : x ≡ l = ground (arith, here) in
      elim (Bool-cases (x.id == i)) [
        | inl y ↦ rw (sym same, y, here) refl
        | inr n ↦ rw (sym same, n, here) refl
      ]
  | inr there ↦
      let rest = find?-counted id i ls l (ground (arith, there)) in
      elim (Bool-cases (x.id == i)) [ inl y ↦ rw (y, there) rest | inr n ↦ rw (n, there) rest ]
]

-- What a request does: nothing, or it counts a view of a link with a view left, and then it goes on or
-- not.
IsCounting : Answer ShareLink × Store → Store → Type 0
IsCounting r w =
    (k : ShareLink) × (p : ShareLink → Bool) × (find? p w.links ≡ some k)
    × (has_view_left k ≡ true)
    × (r.1.links ≡ counted_links k.id w.links)
    × ((r.0 ≡ answer k) ⊎ ((e : Failure) × (r.0 ≡ failure e)))

IsRequest : Answer ShareLink × Store → Store → Type 0
IsRequest r w = ((e : Failure) × ((r.0 ≡ failure e) × (r.1.links ≡ w.links))) ⊎ IsCounting r w

refused-IsRequest :
    (e : Failure) (r : Answer ShareLink × Store) (env : StoreEnv) (w : Store)
    → r ≡ (failure e, tick env w)
    → IsRequest r w
unfolding IsRequest
refused-IsRequest e r env w same = inl (e, (ground (arith, same), ground (arith, same)))

-- The end of a request that passed the checks.
count_and_return : ShareLink → StoreEnv → Store → Answer ShareLink × Store
count_and_return k = increment_share_link_views k.id >> return k

count_and_return-IsRequest :
    (token : ℕ) (k : ShareLink) (env : StoreEnv) (w : Store)
    → HasIds w.links
    → (get_share_link_by_token token env w).0 ≡ answer (some k)
    → IsRequest (count_and_return k env (tick env w)) w
unfolding count_and_return IsRequest IsCounting increment_share_link_views counted_links
count_and_return-IsRequest token k env w ids q =
    let by_token = λ (j : ShareLink). j.token == token in
    let (found, left) = get_share_link_by_token-live token k env w q in
    let there = find?-id by_token w.links k ids found in
    elim (Fate-cases (env.fate (tick env w).calls)) [
      | inl done ↦
          inr (
            k,
            by_token,
            found,
            left,
            ground (arith, done, there),
            inl (ground (arith, done, there)),
          )
      | inr (inl (c, refused)) ↦
          inl (database c, (ground (arith, refused), ground (arith, refused)))
      | inr (inr (c, lost)) ↦ inr (
        k,
        by_token,
        found,
        left,
        ground (arith, lost, there),
        inr (database c, ground (arith, lost)),
      )
    ]

access_shared-IsRequest :
    (token password : ℕ) (env : StoreEnv) (w : Store)
    → HasIds w.links
    → IsRequest (access_shared token password env w) w
unfolding access_shared count_and_return
access_shared-IsRequest token password env w ids =
    let moved = get_share_link_by_token-world token env w in
    let run = access_shared token password env w in
    let refuses = λ (e : Failure). refused-IsRequest e run env w in
    elim (Answer-cases (get_share_link_by_token token env w).0) [
      | inr (thrown, q) ↦ refuses thrown (ground (arith, q, moved))
      | inl (none, q) ↦ refuses missing_row (ground (arith, q, moved))
      | inl (some k, q) ↦ elim (Bool-cases (passes_password env.sha256 k password)) [
        | inr wrong ↦ refuses access_denied (ground (arith, q, moved, wrong))
        | inl right ↦
            let same : run ≡ count_and_return k env (tick env w) =
              ground (arith, q, moved, right) in
            subst (λ r. IsRequest r w) (sym same) (count_and_return-IsRequest token k env w ids q)
      ]
    ]

download_shared-IsRequest :
    (token password : ℕ) (env : StoreEnv) (w : Store)
    → HasIds w.links
    → IsRequest (download_shared token password env w) w
unfolding download_shared count_and_return
download_shared-IsRequest token password env w ids =
    let moved = get_share_link_by_token-world token env w in
    let run = download_shared token password env w in
    let refuses = λ (e : Failure). refused-IsRequest e run env w in
    elim (Answer-cases (get_share_link_by_token token env w).0) [
      | inr (thrown, q) ↦ refuses thrown (ground (arith, q, moved))
      | inl (none, q) ↦ refuses missing_row (ground (arith, q, moved))
      | inl (some k, q) ↦ elim (Bool-cases (has_shared_file w.files k)) [
        | inr bare ↦ refuses missing_row (ground (arith, q, moved, bare))
        | inl is_file ↦ elim (Bool-cases (passes_password env.sha256 k password)) [
          | inr wrong ↦ refuses access_denied (ground (arith, q, moved, is_file, wrong))
          | inl right ↦
              let same : run ≡ count_and_return k env (tick env w) =
                ground (arith, q, moved, is_file, right) in
              subst (λ r. IsRequest r w) (sym same) (count_and_return-IsRequest token k env w ids q)
        ]
      ]
    ]

run_shared-IsRequest :
    (r : SharedRequest) (env : StoreEnv) (w : Store)
    → HasIds w.links
    → IsRequest (run_shared r env w) w
run_shared-IsRequest (opens token password) env w ids =
    access_shared-IsRequest token password env w ids
run_shared-IsRequest (downloads token password) env w ids =
    download_shared-IsRequest token password env w ids

-- The link of the id has been viewed at least so often, and at most as often as it may be.
IsViewed : ℕ → ℕ → ℕ → List ShareLink → Type 0
IsViewed id most n ls =
    (l : ShareLink) × (find? (λ j. j.id == id) ls ≡ some l)
    × (l.max_views ≡ some most)
    × (n ≤ l.views)
    × (l.views ≤ most)

-- A view of another link, and a view of this one.
IsViewed-other :
    (id most n : ℕ) (k : ShareLink) (ls : List ShareLink)
    → id ≢ k.id
    → IsViewed id most n ls
    → IsViewed id most n (counted_links k.id ls)
unfolding IsViewed
IsViewed-other id most n k ls ne (l, here, limit, least, bound) =
    let is_id : (l.id == id) ≡ true = find?-some (λ j. j.id == id) ls l here in
    let miss : (l.id == k.id) ≡ false = ground (arith, is_id, ne) in
    let after = find?-counted id k.id ls l here in (l, rw miss at after, limit, least, bound)

IsViewed-this :
    (most n : ℕ) (k : ShareLink) (ls : List ShareLink)
    → find? (λ j. j.id == k.id) ls ≡ some k
    → has_view_left k ≡ true
    → IsViewed k.id most n ls
    → IsViewed k.id most (1 + n) (counted_links k.id ls)
unfolding IsViewed
IsViewed-this most n k ls there left (l, here, limit, least, bound) =
    let same : l ≡ k = ground (arith, here, there) in
    let limit' : k.max_views ≡ some most = rw same at limit in
    let least' : n ≤ k.views = rw same at least in
    let after = find?-counted k.id k.id ls k there in
    let hit : (k.id == k.id) ≡ true = ground arith in
    (count_view k, rw hit at after, limit', omega (arith, least'), ground (arith, left, limit'))

IsViewed-less :
    (id most m n : ℕ) (ls : List ShareLink) → m ≤ n → IsViewed id most n ls → IsViewed id most m ls
unfolding IsViewed
IsViewed-less id most m n ls less (l, here, limit, least, bound) =
    (l, here, limit, omega (arith, less, least), bound)

run_shared-IsViewed :
    (id most n : ℕ) (r : Answer ShareLink × Store) (w : Store)
    → IsRequest r w
    → HasIds w.links
    → IsViewed id most n w.links
    → HasIds r.1.links × IsViewed id most (views_of id r.0 + n) r.1.links
unfolding IsRequest IsCounting
run_shared-IsViewed id most n r w (inl (e, (stopped, same))) ids viewed =
    rw (same, stopped) (ids, IsViewed-less id most (0 + n) n w.links (omega arith) viewed)
run_shared-IsViewed id most n r w (inr (k, p, found, left, links, ends)) ids viewed =
    let there = find?-id p w.links k ids found in
    let v = views_of id r.0 in
    rw links (
      HasIds-counted k.id w.links ids,
      elim (Bool-cases (k.id == id)) [
        | inl y ↦
            let this : k.id ≡ id = ground (arith, y) in
            let once : v ≤ 1 = elim ends [
              | inl e ↦ rw e (ground arith)
              | inr (x, e) ↦ rw e (ground arith)
            ] in
            IsViewed-less id most (v + n) (1 + n) (counted_links k.id w.links) (omega (arith, once))
              (subst (λ i. IsViewed i most (1 + n) (counted_links k.id w.links)) this
                (IsViewed-this most n k w.links there left
                  (subst (λ i. IsViewed i most n w.links) (sym this) viewed)))
        | inr miss ↦
            let never : v ≡ 0 = elim ends [ inl e ↦ rw (e, miss) refl | inr (x, e) ↦ rw e refl ] in
            IsViewed-less id most (v + n) n (counted_links k.id w.links) (omega (arith, never))
              (IsViewed-other id most n k w.links (λ e. absurd (ground (arith, e, miss))) viewed)
      ],
    )

granted_upto :
    (id most n : ℕ) (rs : List SharedRequest) (env : StoreEnv) (w : Store)
    → HasIds w.links
    → IsViewed id most n w.links
    → n + granted id rs env w ≤ most
unfolding granted IsViewed
granted_upto id most n [] env w ids (l, here, limit, least, bound) = omega (arith, least, bound)
granted_upto id most n (r ∷ rs) env w ids viewed =
    let v = views_of id (run_shared r env w).0 in
    let (ids', viewed') =
      run_shared-IsViewed id most n (run_shared r env w) w (run_shared-IsRequest r env w ids) ids
        viewed in
    let rest = granted_upto id most (v + n) rs env (run_shared r env w).1 ids' viewed' in
    omega (arith, rest)

-- Over any sequence of requests to `GET /:token` and `GET /:token/download`, with any tokens and
-- passwords and however the calls of the database end, at most as many go on to the content of a stored
-- link with a limit as it has views left, where the identifiers of links are unique and its views are
-- within the limit. (A request for one file of a shared folder, `GET /:token/file/:fileId`, is none of
-- these: it counts no view.)
pub granted_bounded :
    (l : ShareLink) (most : ℕ) (rs : List SharedRequest) (env : StoreEnv) (w : Store)
    → HasIds w.links
    → find? (λ j. j.id == l.id) w.links ≡ some l
    → l.max_views ≡ some most
    → l.views ≤ most
    → l.views + granted l.id rs env w ≤ most
unfolding IsViewed
granted_bounded l most rs env w ids here limit bound =
    granted_upto l.id most l.views rs env w ids (l, here, limit, omega arith, bound)
