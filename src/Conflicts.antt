-- ===== src/Conflicts.antt =====
-- Conflict events: core/crdt/src/conflicts.rs, and the incremental stream of graph.rs.
use nodalmerge.Base.{
  ℕ, ◌+◌, ◌-◌, zero, suc, Bool, true, Bytes, List, [], ◌∷◌, ◌++◌, Option, none, some, ltb, leb,
  ◌==◌, if◌then◌else◌, length,
}
use nodalmerge.Base.Prio.{Prio, gtp}
use nodalmerge.Base.Endian.{be_bytes}
use nodalmerge.Op.{}
use nodalmerge.Op.Hex.{to_hex}
use nodalmerge.Lww.{MapWinner, winner_prio}

pub data ConflictKind : Type 0 where
  map_overwrite list_move_lost list_delete_won : ConflictKind

pub data ConflictOp : Type 0 where
  set : Bytes → ConflictOp
  delete : ConflictOp
  set_blob : Bytes → ConflictOp
  list_move : ℕ → ConflictOp
  list_insert : ℕ → ConflictOp
  list_delete : ℕ → ConflictOp

pub record ConflictEvent : Type 0 where
  pub kind : ConflictKind
  pub key : Bytes
  pub winner : Prio
  pub winner_op : ConflictOp
  pub loser : Prio
  pub loser_op : ConflictOp

-- `MapWinner::conflict_op`: a blob's value of another length than 32 gives the zero hash
unfoldable pub conflict_op : MapWinner → ConflictOp
conflict_op w = elim w.value [
  | none ↦ ConflictOp.delete
  | some v ↦
      if w.is_blob
      then ConflictOp.set_blob (if length v == 32 then v else be_bytes 32 0)
      else ConflictOp.set v
]

abbrev pub pending_conflicts_cap : ℕ
pending_conflicts_cap = 16384

unfoldable pub drop_first : ℕ → List ConflictEvent → List ConflictEvent
drop_first zero events = events
drop_first (suc n) [] = []
drop_first (suc n) (e ∷ events) = drop_first n events

unfoldable pub push_pending_conflict : List ConflictEvent → ConflictEvent → List ConflictEvent
unfolding drop_first
push_pending_conflict pending event =
    (if leb pending_conflicts_cap (length pending)
      then drop_first (length pending + 1 - pending_conflicts_cap) pending
      else pending)
    ++ event ∷ []

-- the event that a map operation adds to the stream, against the current winner of its key
unfoldable pub map_conflict : Bytes → MapWinner → Option MapWinner → Option ConflictEvent
unfolding conflict_op
map_conflict key candidate none = none
map_conflict key candidate (some current) =
    if current.author == candidate.author
    then none
    else if gtp (winner_prio candidate) (winner_prio current)
    then some (record {
      kind = ConflictKind.map_overwrite;
      key = key;
      winner = winner_prio candidate;
      winner_op = conflict_op candidate;
      loser = winner_prio current;
      loser_op = conflict_op current;
    })
    else some (record {
      kind = ConflictKind.map_overwrite;
      key = key;
      winner = winner_prio current;
      winner_op = conflict_op current;
      loser = winner_prio candidate;
      loser_op = conflict_op candidate;
    })

pub record ListConflictState : Type 0 where
  pub pos_winner : Option (Prio × ConflictOp)
  pub delete_winner : Option Prio
  pub pos_ops : List (Prio × ConflictOp)

abbrev pub no_list_conflicts : ListConflictState
no_list_conflicts = record { pos_winner = none; delete_winner = none; pos_ops = [] }

abbrev pub list_conflict_pos_ops_cap : ℕ
list_conflict_pos_ops_cap = 64

-- `format!("{}#{}", list_key, item_id.to_hex())`
unfoldable pub item_key : Bytes → ℕ → Bytes
item_key list_key item = list_key ++ (b'#' ∷ to_hex (be_bytes 16 item))

abbrev list_event : ConflictKind → Bytes → ℕ → Prio × ConflictOp → Prio × ConflictOp → ConflictEvent
list_event kind key item (winner, winner_op) (loser, loser_op) = record {
  kind = kind;
  key = item_key key item;
  winner = winner;
  winner_op = winner_op;
  loser = loser;
  loser_op = loser_op;
}

-- the event of an operation that sets a position
unfoldable pub position_conflict :
    Bytes → ℕ → Prio × ConflictOp → ListConflictState → Option ConflictEvent
position_conflict key item (at, cop) st = elim st.delete_winner [
  | some d ↦
      if d.author == at.author
      then none
      else some (
          list_event ConflictKind.list_delete_won key item (d, ConflictOp.list_delete item)
            (at, cop))
  | none ↦ elim st.pos_winner [
    | none ↦ none
    | some (w, wop) ↦
        if w.author == at.author
        then none
        else if gtp at w
        then some (list_event ConflictKind.list_move_lost key item (at, cop) (w, wop))
        else some (list_event ConflictKind.list_move_lost key item (w, wop) (at, cop))
  ]
]

-- `as_ref().map(|w| prio > w).unwrap_or(true)`
unfoldable pub takes_over : Prio → Option (Prio × ConflictOp) → Bool
takes_over at none = true
takes_over at (some (w, wop)) = gtp at w

unfoldable pub delete_takes_over : Prio → Option Prio → Bool
delete_takes_over at none = true
delete_takes_over at (some w) = gtp at w

unfoldable pub note_position : Prio × ConflictOp → ListConflictState → ListConflictState
unfolding takes_over
note_position (at, cop) st = record st {
  pos_ops =
      if ltb (length st.pos_ops) list_conflict_pos_ops_cap
      then st.pos_ops ++ (at, cop) ∷ []
      else st.pos_ops;
  pos_winner = if takes_over at st.pos_winner then some (at, cop) else st.pos_winner;
}

-- the events of a first delete, one for each position that another author set
unfoldable pub delete_events : Bytes → ℕ → Prio → List (Prio × ConflictOp) → List ConflictEvent
delete_events key item at [] = []
delete_events key item at ((p, pop) ∷ pos_ops) =
    let rest = delete_events key item at pos_ops in
    if p.author == at.author
    then rest
    else list_event ConflictKind.list_delete_won key item (at, ConflictOp.list_delete item) (p, pop)
      ∷ rest

unfoldable pub note_delete : Prio → ListConflictState → ListConflictState
unfolding delete_takes_over
note_delete at st = record st {
  delete_winner = if delete_takes_over at st.delete_winner then some at else st.delete_winner;
}

unfoldable pub push_all : List ConflictEvent → List ConflictEvent → List ConflictEvent
unfolding push_pending_conflict
push_all pending [] = pending
push_all pending (e ∷ events) = push_all (push_pending_conflict pending e) events

unfoldable pub push_option : List ConflictEvent → Option ConflictEvent → List ConflictEvent
unfolding push_pending_conflict
push_option pending none = pending
push_option pending (some e) = push_pending_conflict pending e
