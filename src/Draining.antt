-- ===== src/Draining.antt =====
-- The sweep and the resolver over the repositories of PostgreSQL, as runCanonical and runExternal of
-- cmd/ingestion/main.go put them together.
pub mod Safety
pub mod Kept
pub mod Resolved
mod Tests
use inwheel_api.Identity.Sweep.{Sweeper}
use inwheel_api.Database.{Database, Postgres}
use inwheel_api.Identity.Resolve.{Resolver}
use inwheel_api.Unmatched.{enqueue_repo, sweep_repo}
use inwheel_api.Places.{candidate_repo, attach_repo}

abbrev pub sweeper : Postgres → Sweeper Database
sweeper pg = record {
  candidates = candidate_repo pg;
  places = attach_repo pg;
  queue = sweep_repo pg;
}

abbrev pub resolver : Postgres → Resolver Database
resolver pg = record {
  candidates = candidate_repo pg;
  places = attach_repo pg;
  unmatched = enqueue_repo pg;
}
