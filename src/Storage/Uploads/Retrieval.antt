-- ===== src/Storage/Uploads/Retrieval.antt =====
-- The folder that another request made first, which is only read.
use graphql_prisma_postgres.Prelude.{ℕ, refl, List, find?}
use graphql_prisma_postgres.Effects.{PrismaCode, p2002, p2003, p2025, p1001, p1002, p1017, other}
use graphql_prisma_postgres.Storage.State.{internal, Store, or_fail, query}
use graphql_prisma_postgres.Storage.Reading.{
  Ticks, query-view, Keeps, Keeps-and_then, or_fail-Keeps,
}
use graphql_prisma_postgres.Storage.Uploads.{is_own_path, retrieve_folder}

pub retrieve_folder-Keeps :
    {X : Type 0} (view : Store → X) (ticks : Ticks view) (path : List ℕ) (owner : ℕ)
    (c : PrismaCode)
    → Keeps view (retrieve_folder path owner c)
unfolding retrieve_folder
retrieve_folder-Keeps view ticks path owner p2002 =
    let look = λ (w : Store). find? (is_own_path path owner) w.folders in
    Keeps-and_then view (query look) (λ found. or_fail found internal) (query-view view ticks look)
      (λ found. or_fail-Keeps view found internal)
retrieve_folder-Keeps view ticks path owner p2003 = λ env w. refl
retrieve_folder-Keeps view ticks path owner p2025 = λ env w. refl
retrieve_folder-Keeps view ticks path owner p1001 = λ env w. refl
retrieve_folder-Keeps view ticks path owner p1002 = λ env w. refl
retrieve_folder-Keeps view ticks path owner p1017 = λ env w. refl
retrieve_folder-Keeps view ticks path owner other = λ env w. refl
