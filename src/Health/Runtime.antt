-- ===== src/Health/Runtime.antt =====
-- The circuits and governors of proxy/src/health.rs, through the state database and back.
use flock.Base.{
  ℕ, ◌<◌, ◌^◌, ◌≡◌, refl, sym, ap, ◌∙◌, subst, ite, Option, none, some, List, [], ◌∷◌, String,
  String-discrete, find, insert, map_found, Unique, insert-Unique, find-insert, All, arith, as_u64,
  as_u64-as_i64, ◌>>=◌,
}
use flock.Circuit.{CircuitSnapshot}
use flock.Governor.Persist.{GovernorSnapshot}
use flock.Health.{
  Host, PersistOp, LaneWindowRow, ProviderStateRow, circuit, governor, lane_windows,
  flush_providers, shutdown, lookup, or_else, put,
}
use flock.Health.Store.{
  StateDb, CircuitColumns, GovernorColumns, Pair-discrete, circuit_columns, governor_columns,
  no_rows, write_rows, write_windows, apply_op, applied, writer_loop, write_row, write_window,
  row_columns,
}
use flock.Health.Restore.{read_circuit, read_governor, read_circuits, read_governors, restore}

-- the widths of a snapshot's fields
abbrev pub CircuitFits : CircuitSnapshot → Type 0
CircuitFits s =
    (s.state < 2 ^ 8)
    × (s.failures < 2 ^ 32)
    × (s.last_failure_unix < 2 ^ 64)
    × (s.consecutive_successes < 2 ^ 32)

abbrev pub GovernorFits : GovernorSnapshot → Type 0
GovernorFits s =
    (s.worker_limit < 2 ^ 64)
    × (s.last_exhausted_unix < 2 ^ 64)
    × (s.last_adjusted_unix < 2 ^ 64)
    × (s.blocked_until_unix < 2 ^ 64)

read_circuit-circuit_columns :
    (s : CircuitSnapshot) → CircuitFits s → read_circuit (circuit_columns s) ≡ s
unfolding as_u64
read_circuit-circuit_columns s h = ground (arith, as_u64-as_i64 s.last_failure_unix)

read_governor-governor_columns :
    (s : GovernorSnapshot) → GovernorFits s → read_governor (governor_columns s) ≡ s
read_governor-governor_columns s h = ground (
  arith,
  as_u64-as_i64 s.worker_limit,
  as_u64-as_i64 s.last_exhausted_unix,
  as_u64-as_i64 s.last_adjusted_unix,
  as_u64-as_i64 s.blocked_until_unix,
)

abbrev pub found_or_old : {A B : Type 0} → (A → B) → Option A → Option B → Option B
found_or_old f none old = old
found_or_old f (some a) old = some (f a)

abbrev OptionFits : {A : Type 0} → (A → Type 0) → Option A → Type 0
OptionFits P none = Unit
OptionFits P (some a) = P a

OptionFits-ite :
    {A D : Type 0} (P : A → Type 0) (d : Dec D) (a : A) (o : Option A)
    → P a
    → OptionFits P o
    → OptionFits P (ite d (some a) o)
OptionFits-ite P (yes _) a o h k = h
OptionFits-ite P (no _) a o h k = k

circuit_back :
    (o : Option CircuitSnapshot)
    → OptionFits CircuitFits o
    → found_or_old read_circuit (map_found String-discrete circuit_columns o) none ≡ o
circuit_back none h = refl
circuit_back (some s) h = ap some (read_circuit-circuit_columns s h)

governor_back :
    (o : Option GovernorSnapshot)
    → OptionFits GovernorFits o
    → found_or_old read_governor (map_found Pair-discrete governor_columns o) none ≡ o
governor_back none h = refl
governor_back (some s) h = ap some (read_governor-governor_columns s h)

circuits-lookup :
    (t : List (String × CircuitColumns)) (m : List (String × CircuitSnapshot)) (p : String)
    → Unique String-discrete t
    → lookup p (read_circuits t m)
      ≡ found_or_old read_circuit (find String-discrete p t) (lookup p m)
unfolding read_circuits find
circuits-lookup [] m p u = refl
circuits-lookup ((q, row) ∷ t) m p (fresh, u) = ground (
  arith,
  circuits-lookup t (put q (read_circuit row) m) p u,
  find-insert String-discrete q p (read_circuit row) m,
  ap (λ x. find String-discrete x t),
)

governors-lookup :
    (t : List ((String × String) × GovernorColumns))
    (m : List ((String × String) × GovernorSnapshot)) (k : String × String)
    → Unique Pair-discrete t
    → find Pair-discrete k (read_governors t m)
      ≡ found_or_old read_governor (find Pair-discrete k t) (find Pair-discrete k m)
unfolding read_governors find
governors-lookup [] m k u = refl
governors-lookup ((q, row) ∷ t) m k (fresh, u) = ground (
  arith,
  governors-lookup t (insert Pair-discrete q (read_governor row) m) k u,
  find-insert Pair-discrete q k (read_governor row) m,
  ap (λ x. find Pair-discrete x t),
)

module _ {host : Host} where
  -- the snapshots that an op carries fit their fields
  abbrev pub OpFits : PersistOp host → Type 0
  OpFits (circuit provider snap) = CircuitFits snap
  OpFits (governor provider model snap) = GovernorFits snap
  OpFits _ = Unit

  -- the snapshot of a circuit or of a governor after an op
  abbrev pub circuit_after :
      PersistOp host → String → Option CircuitSnapshot → Option CircuitSnapshot
  circuit_after (circuit q snap) p old = ite (String-discrete q p) (some snap) old
  circuit_after _ p old = old

  abbrev pub governor_after :
      PersistOp host → String × String → Option GovernorSnapshot → Option GovernorSnapshot
  governor_after (governor q model snap) k old = ite (Pair-discrete (q, model) k) (some snap) old
  governor_after _ k old = old

  -- what the ops before a shutdown leave
  abbrev pub last_circuit :
      List (PersistOp host) → String → Option CircuitSnapshot → Option CircuitSnapshot
  last_circuit [] p old = old
  last_circuit (shutdown ∷ ops) p old = old
  last_circuit (op ∷ ops) p old = last_circuit ops p (circuit_after op p old)

  abbrev pub last_governor :
      List (PersistOp host) → String × String → Option GovernorSnapshot → Option GovernorSnapshot
  last_governor [] k old = old
  last_governor (shutdown ∷ ops) k old = old
  last_governor (op ∷ ops) k old = last_governor ops k (governor_after op k old)

  -- two databases with the same circuits and governors
  abbrev Alike : StateDb host → StateDb host → Type 0
  Alike db db' = (db'.circuits ≡ db.circuits) × (db'.governors ≡ db.governors)

  rows-Alike :
      (rows : List (ProviderStateRow host)) (db : StateDb host) → Alike db (write_rows db rows)
  unfolding write_rows
  rows-Alike [] db = (refl, refl)
  rows-Alike (r ∷ rows) db = rows-Alike rows (write_row db r.provider (row_columns r))

  windows-Alike :
      (rows : List LaneWindowRow) (p : String) (db d : StateDb host)
      → Alike db d
      → Alike db (or_else (write_windows db p rows) d)
  unfolding write_windows
  windows-Alike [] p db d h = (refl, refl)
  windows-Alike (row ∷ rows) p db d h =
      written (host.to_json row.sent_ms)
        (λ json. windows-Alike rows p (write_window db p row.key json) d h)
    where
      written :
          (o : Option host.Json)
          → ((json : host.Json)
              → Alike db (or_else (write_windows (write_window db p row.key json) p rows) d))
          → Alike db
              (or_else (o >>= λ json. write_windows (write_window db p row.key json) p rows) d)
      written none ih = h
      written (some json) ih = ih json

  module _ (p : String) (k : String × String) where
    -- the database holds the snapshots `c` and `g`
    record Held (c : Option CircuitSnapshot) (g : Option GovernorSnapshot) (db : StateDb host)
        : Type 0 where
      circuit_is : lookup p db.circuits ≡ map_found String-discrete circuit_columns c
      governor_is : find Pair-discrete k db.governors ≡ map_found Pair-discrete governor_columns g
      circuits_unique : Unique String-discrete db.circuits
      governors_unique : Unique Pair-discrete db.governors
      circuit_fits : OptionFits CircuitFits c
      governor_fits : OptionFits GovernorFits g

    Alike-Held :
        (c : Option CircuitSnapshot) (g : Option GovernorSnapshot) (db db' : StateDb host)
        → Alike db db'
        → Held c g db
        → Held c g db'
    Alike-Held c g db db' (ec, eg) h = record {
      circuit_is = ap (lookup p) ec ∙ h.circuit_is;
      governor_is = ap (find Pair-discrete k) eg ∙ h.governor_is;
      circuits_unique = subst (Unique String-discrete) (sym ec) h.circuits_unique;
      governors_unique = subst (Unique Pair-discrete) (sym eg) h.governors_unique;
      circuit_fits = h.circuit_fits;
      governor_fits = h.governor_fits;
    }

    applied-Held :
        (op : PersistOp host) (c : Option CircuitSnapshot) (g : Option GovernorSnapshot)
        (db : StateDb host)
        → OpFits op
        → Held c g db
        → Held (circuit_after op p c) (governor_after op k g) (applied db op)
    unfolding apply_op
    applied-Held (circuit q snap) c g db f h = record {
      circuit_is =
          ground (
            arith,
            find-insert String-discrete q p (circuit_columns snap) db.circuits,
            h.circuit_is,
          );
      governor_is = h.governor_is;
      circuits_unique =
          insert-Unique String-discrete q (circuit_columns snap) db.circuits h.circuits_unique;
      governors_unique = h.governors_unique;
      circuit_fits = OptionFits-ite CircuitFits (String-discrete q p) snap c f h.circuit_fits;
      governor_fits = h.governor_fits;
    }
    applied-Held (governor q model snap) c g db f h = record {
      circuit_is = h.circuit_is;
      governor_is = ground (
        arith,
        find-insert Pair-discrete (q, model) k (governor_columns snap) db.governors,
        h.governor_is,
      );
      circuits_unique = h.circuits_unique;
      governors_unique =
          insert-Unique Pair-discrete (q, model) (governor_columns snap) db.governors
            h.governors_unique;
      circuit_fits = h.circuit_fits;
      governor_fits =
          OptionFits-ite GovernorFits (Pair-discrete (q, model) k) snap g f h.governor_fits;
    }
    applied-Held (lane_windows q rows) c g db f h =
        Alike-Held c g db _ (windows-Alike rows q db db (refl, refl)) h
    applied-Held (flush_providers rows) c g db f h = Alike-Held c g db _ (rows-Alike rows db) h
    applied-Held _ c g db f h = Alike-Held c g db _ (refl, refl) h

    writer_loop-Held :
        (ops : List (PersistOp host)) (c : Option CircuitSnapshot) (g : Option GovernorSnapshot)
        (db : StateDb host)
        → All OpFits ops
        → Held c g db
        → Held (last_circuit ops p c) (last_governor ops k g) (writer_loop db ops)
    unfolding writer_loop
    writer_loop-Held [] c g db f h = h
    writer_loop-Held (shutdown ∷ ops) c g db f h = h
    writer_loop-Held (op ∷ ops) c g db (f, fs) h =
        writer_loop-Held ops (circuit_after op p c) (governor_after op k g) (applied db op) fs
          (applied-Held op c g db f h)

    empty-Held : Held none none (no_rows {host = host})
    unfolding no_rows find
    empty-Held = record {
      circuit_is = refl;
      governor_is = refl;
      circuits_unique = tt;
      governors_unique = tt;
      circuit_fits = tt;
      governor_fits = tt;
    }

    -- A restart that reads what the writer wrote of a queue of ops to a fresh database, up to a
    -- shutdown, finds for each provider the circuit snapshot written last and for each provider and
    -- model the governor snapshot written last, where these fit the machine integers of their fields.
    pub restore-writer_loop :
        (ops : List (PersistOp host)) (t : ℕ)
        → All OpFits ops
        → (lookup p (restore (writer_loop no_rows ops) t).runtime.circuits
            ≡ last_circuit ops p none)
          × (find Pair-discrete k (restore (writer_loop no_rows ops) t).runtime.governors
              ≡ last_governor ops k none)
    unfolding restore find
    restore-writer_loop ops t fs =
        let h = writer_loop-Held ops none none no_rows fs empty-Held in
        (
          circuits-lookup (writer_loop no_rows ops).circuits [] p h.circuits_unique
              ∙ ap (λ o. found_or_old read_circuit o none) h.circuit_is
              ∙ circuit_back (last_circuit ops p none) h.circuit_fits,
          governors-lookup (writer_loop no_rows ops).governors [] k h.governors_unique
              ∙ ap (λ o. found_or_old read_governor o none) h.governor_is
              ∙ governor_back (last_governor ops k none) h.governor_fits,
        )
