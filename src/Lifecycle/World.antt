-- ===== src/Lifecycle/World.antt =====
-- What a handler of service.rs works on: the entry's cached record (`EntryState`), the service's counters, the
-- tables of the database, and what the handler tells others.
--
-- A handler runs under the entry's lock, so nothing else changes the cached record. Each call of the database
-- takes the next item of `outside`: the time that passes, what other machines do to the tables before the
-- statement, and whether the statement and its answer arrive. When the list is used up, nothing happens outside.
use opentunnel.Prelude.{ℕ, ◌+◌, Bool, Option, List, [], ◌∷◌, ◌++◌, Bytes}
use opentunnel.Record.{StoredTunnel}
use opentunnel.Store.Jobs.{JobRow}
use opentunnel.Store.Tunnels.{Tunnels}

-- `csr::Request`.
pub record CsrRequest : Type 0 where
  pub hostname : Bytes
  pub identifiers : List Bytes

pub data Error : Type 0 where
  -- `Conflict`; the database cannot be reached; a text that is no record; a job that lacks its ID or its CSR.
  conflict unavailable undecodable missing_id missing_csr : Error

-- The configuration, and the code of other packages: serde_json, the token comparison, the CSR parser, humantime.
pub record External : Type 0 where
  pub domain : Bytes
  pub clustered : Bool
  pub json : StoredTunnel → Bytes
  pub from_json : Bytes → Option StoredTunnel
  pub token_matches : Bytes → Bytes → Bool
  pub parse_csr : Bytes → Option CsrRequest
  pub iso : ℕ → Bytes
  pub parse_iso : Bytes → Option ℕ
  -- `error.to_string()`.
  pub message : Error → Bytes

pub record Tables : Type 0 where
  pub tunnels : Tunnels
  pub jobs : List JobRow

pub data Fault : Type 0 where
  -- The statement ran and its answer arrived; it never ran; it ran and its answer was lost.
  answered refused lost : Fault

pub record Outside : Type 0 where
  pub elapsed : ℕ
  -- How often `forget_cached_answers` is called.
  pub forgotten : ℕ
  pub others : Tables → Tables
  pub fault : Fault

-- The fields of `EntryState` that the record's cache uses, and whether a bridge is attached.
pub record Cached : Type 0 where
  pub loaded : Bool
  pub record_of : Option StoredTunnel
  pub revision : ℕ
  pub checked_at : ℕ
  pub stale : Bool
  pub generation : ℕ
  pub alarm : Option (ℕ × Option ℕ)
  pub attached : Bool

-- Announcements on the mesh, analytics events, wake-ups of the runners of jobs and alarms, closed bridges.
pub data Effect : Type 0 where
  tunnel_created tunnel_deleted certificate_changed : Bytes → Effect
  job_enqueued jobs_woken alarms_woken bridges_deleted : Effect
  certificate_issued certificate_renewed deleted_published : Effect
  -- Whether it was a renewal.
  certificate_failed : Bool → Effect

pub data Result {ℓ} (A : Type ℓ) : Type ℓ where
  ok : A → Result A
  err : Error → Result A

pub record World : Type 0 where
  pub cached : Cached
  pub refresh_failed_at : ℕ
  -- The service's generation.
  pub current : ℕ
  pub tables : Tables
  pub now : ℕ
  pub outside : List Outside
  -- Oldest first.
  pub effects : List Effect

-- A handler, or a part of one.
abbrev pub Op : Type 0 → Type 0
Op A = World → World × Result A

unfoldable pub continue_with : {A B : Type 0} → (A → Op B) → World × Result A → World × Result B
continue_with f (w, ok a) = f a w
continue_with f (w, err e) = (w, err e)

-- The `?` operator.
infixl 5 ◌>>=◌ ◌>>◌
unfoldable pub ◌>>=◌ : {A B : Type 0} → Op A → (A → Op B) → Op B
unfolding continue_with
(m >>= f) w = continue_with f (m w)

unfoldable pub ◌>>◌ : {A B : Type 0} → Op A → Op B → Op B
unfolding ◌>>=◌
m >> k = m >>= λ _. k

unfoldable pub return : {A : Type 0} → A → Op A
return a w = (w, ok a)

unfoldable pub fail : {A : Type 0} → Error → Op A
fail e w = (w, err e)

-- The result as a value, for a `match` on it.
unfoldable pub attempt : {A : Type 0} → Op A → Op (Result A)
attempt m w = let (w', r) = m w in (w', ok r)

unfoldable pub from_result : {A : Type 0} → Result A → Op A
unfolding return fail
from_result (ok a) = return a
from_result (err e) = fail e

unfoldable pub read_cached : Op Cached
read_cached w = (w, ok w.cached)

unfoldable pub write_cached : Cached → Op (Unit {0})
write_cached s w = (record w { cached = s }, ok tt)

unfoldable pub read_now : Op ℕ
read_now w = (w, ok w.now)

unfoldable pub emit : Effect → Op (Unit {0})
emit e w = (record w { effects = w.effects ++ e ∷ [] }, ok tt)

unfoldable pub forget_cached_answers : Op (Unit {0})
forget_cached_answers w = (record w { current = w.current + 1 }, ok tt)

-- A statement whose run `fault` decides, on the tables at that time.
unfoldable pub faulty : {A : Type 0} → Fault → (Tables → Tables × A) → World → World × Result A
faulty answered statement w =
    let (tables', a) = statement w.tables in (record w { tables = tables' }, ok a)
faulty refused statement w = (w, err unavailable)
faulty lost statement w = (record w { tables = (statement w.tables).0 }, err unavailable)

-- The next item of `outside` happens.
unfoldable pub arrive : Outside → List Outside → World → World
arrive o rest w = record w {
  outside = rest;
  now = w.now + o.elapsed;
  current = w.current + o.forgotten;
  tables = o.others w.tables;
}

unfoldable pub call_with : {A : Type 0} → List Outside → (Tables → Tables × A) → Op A
unfolding faulty arrive
call_with [] statement w = faulty answered statement w
call_with (o ∷ rest) statement w = faulty o.fault statement (arrive o rest w)

-- A call of the database.
unfoldable pub call : {A : Type 0} → (Tables → Tables × A) → Op A
unfolding call_with
call statement w = call_with w.outside statement w
