-- ===== src/Lifecycle/Missions.antt =====
-- The table of missions of control_plane/storage.py under each statement: the identities, and the
-- states, along `TRANSITIONS` of control_plane/contracts.py.
use pepeuchiacluster.Prelude.{
  ◌≡◌, refl, sym, ap, ◌∙◌, subst, Bool, true, String, same, same_iff, List, [], ◌∷◌, ◌++◌, none,
  some, inl, inr, arith, find-append_some, Bool-cases, if◌then◌else◌, Keyed, with_key, with_key-key,
  with_key-update, Keyed-append, Keyed-update, updated, update_where,
}
use pepeuchiacluster.Contracts.Lifecycle.{State, allowed, Run, stay, step}
use pepeuchiacluster.Storage.Rows.{MissionRow}
use pepeuchiacluster.Storage.Database.{
  Db, Statement, insert_mission, set_mission_state, mission_with, apply,
}

abbrev pub mission_key : MissionRow → String
mission_key r = r.id

-- The second row is the first after a run of allowed transitions, and otherwise unchanged.
pub record Moved (r0 r : MissionRow) : Type 0 where
  pub run : Run r0.state r.state
  pub rest : r ≡ record r0 { state = r.state }

-- From one database to a later one: every mission is still there, moved along allowed transitions.
pub record Evolves (db0 db : Db) : Type 0 where
  pub keyed : Keyed mission_key db.missions
  pub at :
      (k : String) (r0 : MissionRow)
      → mission_with k db0 ≡ some r0
      → (r : MissionRow) × (mission_with k db ≡ some r) × Moved r0 r

pub Evolves-refl : (db : Db) → Keyed mission_key db.missions → Evolves db db
Evolves-refl db keyed = record {
  keyed = keyed;
  at = λ k r0 e. (r0, e, record { run = stay; rest = refl });
}

-- The statements that leave the missions alone.
abbrev pub IsQuiet : Statement → Type 0
IsQuiet (insert_mission r) = ⊥
IsQuiet (set_mission_state k s) = ⊥
IsQuiet _ = Unit

pub missions-apply :
    (s : Statement) (db db' : Db) → IsQuiet s → apply s db ≡ some db' → db'.missions ≡ db.missions
unfolding apply
missions-apply (insert_mission r) db db' q e = absurd q
missions-apply (set_mission_state k s) db db' q e = absurd q
missions-apply _ db db' q e = ground arith

pub Evolves-quiet :
    {db0 : Db} (s : Statement)
    → IsQuiet s
    → (db db' : Db) → apply s db ≡ some db'
    → Evolves db0 db
    → Evolves db0 db'
unfolding mission_with
Evolves-quiet s q db db' e h =
    let same_rows = missions-apply s db db' q e in
    record {
      keyed = subst (Keyed mission_key) (sym same_rows) h.keyed;
      at = λ k r0 e0.
          let (r, found, moved) = h.at k r0 e0 in
          (r, ap (with_key mission_key k) same_rows ∙ found, moved);
    }

apply-insert_mission :
    (row : MissionRow) (db db' : Db)
    → apply (insert_mission row) db ≡ some db'
    → (db'.missions ≡ db.missions ++ row ∷ []) × (with_key mission_key row.id db.missions ≡ none)
unfolding apply
apply-insert_mission row db db' e = ground arith

pub Evolves-insert :
    {db0 : Db} (row : MissionRow) (db db' : Db)
    → apply (insert_mission row) db ≡ some db'
    → Evolves db0 db
    → Evolves db0 db'
unfolding mission_with
Evolves-insert row db db' e h =
    let (rows, fresh) = apply-insert_mission row db db' e in
    record {
      keyed = rw rows (Keyed-append mission_key db.missions row h.keyed fresh);
      at = λ k r0 e0.
          let (r, found, moved) = h.at k r0 e0 in
          (r, rw rows (find-append_some (λ x. same x.id k) db.missions (row ∷ []) r found), moved);
    }

moved_to : State → MissionRow → MissionRow
moved_to s r = record r { state = s }

apply-set_mission_state :
    (k : String) (s : State) (db db' : Db)
    → apply (set_mission_state k s) db ≡ some db'
    → db'.missions ≡ update_where (λ r. same r.id k) (moved_to s) db.missions
unfolding apply moved_to
apply-set_mission_state k s db db' e = ground arith

-- One step more, if the row is the one that the step was allowed from.
Moved-step :
    (r0 r row : MissionRow) (target : State)
    → allowed row.state target ≡ true
    → (same r.id row.id ≡ true → r ≡ row)
    → Moved r0 r
    → Moved r0 (if same r.id row.id then moved_to target r else r)
unfolding moved_to
Moved-step r0 r row target allow current moved = elim (Bool-cases (same r.id row.id)) [
  | inl hit ↦ rw hit (record {
    run = step moved.run (subst (λ x. allowed x.state target ≡ true) (sym (current hit)) allow);
    rest = ap (moved_to target) moved.rest;
  })
  | inr miss ↦ rw miss moved
]

current_row :
    (k j : String) (rs : List MissionRow) (r row : MissionRow)
    → with_key mission_key k rs ≡ some r
    → with_key mission_key j rs ≡ some row
    → r.id ≡ j
    → r ≡ row
current_row k j rs r row found current same_id =
    let moved : with_key mission_key j rs ≡ some r =
      subst (λ i. with_key mission_key i rs ≡ some r)
        (sym (with_key-key mission_key k rs r found) ∙ same_id) found in
    cc (moved, current)

pub Evolves-move :
    {db0 : Db} (row : MissionRow) (target : State)
    → allowed row.state target ≡ true
    → (db db' : Db) → apply (set_mission_state row.id target) db ≡ some db'
    → Evolves db0 db × (mission_with row.id db ≡ some row)
    → Evolves db0 db'
unfolding mission_with moved_to
Evolves-move row target allow db db' e (h, current) =
    let rows = apply-set_mission_state row.id target db db' e in
    let p : MissionRow → Bool = λ x. same x.id row.id in
    record {
      keyed =
          rw rows (Keyed-update mission_key p (moved_to target) (λ r. refl) db.missions h.keyed);
      at = λ k r0 e0.
          let (r, found, moved) = h.at k r0 e0 in
          (
            if same r.id row.id then moved_to target r else r,
            rw rows (
                with_key-update mission_key p (moved_to target) (λ x. refl) k db.missions
                ∙ ap (updated mission_key p (moved_to target) (λ x. refl)) found),
            Moved-step r0 r row target allow
                (λ hit.
                  current_row k row.id db.missions r row found current
                    ((same_iff r.id row.id).0 hit))
                moved,
          );
    }
