-- ===== src/Storage/Files/Lifecycle/Reading.antt =====
-- What the operations on files read, and what they ask of the provider.
use graphql_prisma_postgres.Prelude.{
  ℕ, ◌≡◌, inl, inr, refl, sym, ap, ◌∙◌, Bool, true, false, not, ◌&&◌, ◌||◌, Option, none, some,
  List, [], ◌∷◌, arith, Bool-cases, Option-cases, if◌then◌else◌, find?, find?-some, ◌==◌,
}
use mathlib.Core.List.{Memᴰ}
use graphql_prisma_postgres.Storage.State.{
  StoredFile, Provider, Store, StoreEnv, access_denied, missing_row, S, return, ◌>>=◌, ◌>>◌, demand,
  or_fail, tick, answer, Answer,
}
use graphql_prisma_postgres.Storage.Rows.{find?-Memᴰ}
use graphql_prisma_postgres.Storage.Reading.{
  Reads, Reads-view, Reads-and_then, query-Reads, demand-Reads, or_fail-Reads,
}
use graphql_prisma_postgres.Storage.Files.{
  is_file, ask, attempt, quietly, find_file, own_file, resolve_file_url, with_url, delete_objects,
  tell_visibility,
}

abbrev pub files_of : Store → List StoredFile
files_of w = w.files

module _ (fs : List StoredFile) where
  pub ask-Reads :
      {A : Type 0} (f : Provider → ℕ → Option A) (env : StoreEnv) (w : Store)
      → w.files ≡ fs
      → Reads files_of fs (λ _. Unit {0}) (ask f env w)
  unfolding ask
  ask-Reads f env w here = elim (Option-cases (f env.provider w.calls)) [
    | inl e ↦ rw (Reads, ask, e) here
    | inr (a, e) ↦ rw (Reads, ask, e) (here, tt)
  ]

  pub attempt-Reads :
      (f : Provider → ℕ → Bool) (env : StoreEnv) (w : Store)
      → w.files ≡ fs
      → Reads files_of fs (λ _. Unit {0}) (attempt f env w)
  unfolding attempt
  attempt-Reads f env w here = elim (Bool-cases (f env.provider w.calls)) [
    | inl y ↦ rw (Reads, attempt, y) (here, tt)
    | inr n ↦ rw (Reads, attempt, n) here
  ]

  pub delete_objects-Reads :
      (gs : List StoredFile) (env : StoreEnv) (w : Store)
      → w.files ≡ fs
      → Reads files_of fs (λ _. Unit {0}) (delete_objects gs env w)
  unfolding delete_objects quietly
  delete_objects-Reads [] env w here = (here, tt)
  delete_objects-Reads (g ∷ gs) env w here = delete_objects-Reads gs env (tick env w) here

  pub tell_visibility-Reads :
      (b : Option Bool) (f : StoredFile) (env : StoreEnv) (w : Store)
      → w.files ≡ fs
      → Reads files_of fs (λ _. Unit {0}) (tell_visibility b f env w)
  tell_visibility-Reads none f env w here = (here, tt)
  tell_visibility-Reads (some b) f env w here =
      elim (Bool-cases ((b && f.is_public) || (not b && not f.is_public))) [
        | inl y ↦ rw (Reads, tell_visibility, y) (here, tt)
        | inr n ↦
            rw (tell_visibility, n)
              (attempt-Reads (λ p k. p.set_file_visibility k f.storage_key b) env w here)
      ]

  -- The owner's file of an id.
  abbrev pub IsOwnFile : ℕ → ℕ → StoredFile → Type 0
  IsOwnFile id owner f = Memᴰ f fs × (f.id ≡ id) × (f.owner_id ≡ owner)

  pub own_file-Reads :
      (id owner : ℕ) (env : StoreEnv) (w : Store)
      → w.files ≡ fs
      → Reads files_of fs (IsOwnFile id owner) (own_file id owner env w)
  unfolding own_file find_file
  own_file-Reads id owner env w here =
      let is_found = λ (o : Option StoredFile). o ≡ find? (is_file id) fs in
      let checked : StoredFile → S StoredFile =
        λ file. demand (file.owner_id == owner) access_denied >> return file in
      Reads-and_then files_of fs is_found (Reads files_of fs (IsOwnFile id owner))
        (find_file id env w) (λ found. or_fail found missing_row >>= checked) env
        (query-Reads files_of (λ _ _. refl) fs is_found (λ v. find? (is_file id) v.files) env w here
          (ap (find? (is_file id)) here))
        (λ e v here. here)
        (λ o v here found.
          Reads-and_then files_of fs (λ f. o ≡ some f) (Reads files_of fs (IsOwnFile id owner))
            (or_fail o missing_row env v) checked env
            (or_fail-Reads files_of fs o missing_row env v here) (λ e v here. here)
            (λ f v here is_some.
              let row = sym found ∙ is_some in
              Reads-and_then files_of fs (λ (_ : Unit {0}). (f.owner_id == owner) ≡ true)
                (Reads files_of fs (IsOwnFile id owner))
                (demand (f.owner_id == owner) access_denied env v) (λ _. return f) env
                (demand-Reads files_of fs (f.owner_id == owner) access_denied env v here)
                (λ e v here. here)
                (λ _ v here own. (
                  here,
                  (
                    find?-Memᴰ (is_file id) fs f row,
                    ground (arith, find?-some (is_file id) fs f row),
                    ground (arith, own),
                  ),
                ))))

  either-Reads :
      {A : Type 0} (b : Bool) (r t : Answer A × Store)
      → Reads files_of fs (λ _. Unit {0}) r
      → Reads files_of fs (λ _. Unit {0}) t
      → Reads files_of fs (λ _. Unit {0}) (if b then r else t)
  either-Reads true r t h k = h
  either-Reads false r t h k = k

  resolve_file_url-Reads :
      (f : StoredFile) (env : StoreEnv) (w : Store)
      → w.files ≡ fs
      → Reads files_of fs (λ _. Unit {0}) (resolve_file_url f env w)
  unfolding resolve_file_url
  resolve_file_url-Reads f env w here =
      let signed = ask (λ p n. p.generate_signed_download_url n f.storage_key) env w in
      let direct = answer (env.provider.get_public_url f.storage_key) in
      either-Reads env.file_proxy_mode (answer (env.proxy_url f.id), w)
        (if f.is_public then (direct, w) else signed) (here, tt)
        (either-Reads f.is_public (direct, w) signed (here, tt)
          (ask-Reads (λ p n. p.generate_signed_download_url n f.storage_key) env w here))

pub with_url-files :
    (f : StoredFile) (env : StoreEnv) (w : Store) → (with_url f env w).1.files ≡ w.files
with_url-files f env w =
    Reads-view files_of w.files (λ _. Unit {0}) (with_url f env w)
      (Reads-and_then files_of w.files (λ _. Unit {0}) (Reads files_of w.files (λ _. Unit {0}))
        (resolve_file_url f env w) (λ url. return (record { file = f; url = url })) env
        (resolve_file_url-Reads w.files f env w refl) (λ e v here. here)
        (λ url v here _. (here, tt)))
