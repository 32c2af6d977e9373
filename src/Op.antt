-- ===== src/Op.antt =====
-- core/crdt/src/op.rs, text_range.rs and hash.rs: the operations a transaction carries.
-- A fixed-size byte array (`Hash`, `ItemId`, an author's key) is read as its big-endian number, so
-- that the array's lexicographic order is the order of numbers; a `String` is its list of bytes,
-- and the text of a range insert is its list of characters.
pub mod Hex
use nodalmerge.Base.{ℕ, zero, suc, ◌/◌, ◌%◌, ◌^◌, Bytes, List, [], ◌∷◌, Option, some}
use nodalmerge.Base.Endian.{be_bytes}
use nodalmerge.Base.Prio.{Prio}

-- `OpId`, ordered by `(lamport, author)`
abbrev pub OpId : Type 0
OpId = Prio

-- `Hash::as_bytes().to_vec()`
unfoldable pub hash_bytes : ℕ → Bytes
unfolding be_bytes
hash_bytes h = be_bytes 32 h

pub data MapOp : Type 0 where
  set : Bytes → Bytes → MapOp
  delete : Bytes → MapOp
  set_blob : Bytes → ℕ → MapOp

pub data ListOp : Type 0 where
  insert : Bytes → ℕ → Bytes → ListOp
  delete : Bytes → ℕ → ListOp
  move : Bytes → ℕ → Bytes → ListOp

pub data TextRangeAnchor : Type 0 where
  start : TextRangeAnchor
  end : TextRangeAnchor
  after : OpId → TextRangeAnchor
  offset : ℕ → TextRangeAnchor

pub data TextOp : Type 0 where
  insert : Bytes → Option OpId → ℕ → TextOp
  delete : Bytes → OpId → TextOp
  insert_range : Bytes → TextRangeAnchor → List ℕ → TextOp
  delete_range : Bytes → TextRangeAnchor → ℕ → TextOp

pub data Op : Type 0 where
  map : MapOp → Op
  list : ListOp → Op
  text : TextOp → Op

pub record Transaction : Type 0 where
  pub author : ℕ
  pub lamport : ℕ
  pub wall_ms : ℕ
  pub ops : List Op
  pub parents : List ℕ

-- the tuple `(tx.lamport, tx.author)`
abbrev pub prio : Transaction → Prio
prio tx = record { lamport = tx.lamport; author = tx.author }

unfoldable pub map_key : MapOp → Bytes
map_key (MapOp.set key value) = key
map_key (MapOp.delete key) = key
map_key (MapOp.set_blob key blob_hash) = key

unfoldable pub list_key : ListOp → Bytes
list_key (ListOp.insert key item_id position) = key
list_key (ListOp.delete key item_id) = key
list_key (ListOp.move key item_id position) = key

unfoldable pub text_key : TextOp → Bytes
text_key (TextOp.insert key left ch) = key
text_key (TextOp.delete key target) = key
text_key (TextOp.insert_range key anchor inserted) = key
text_key (TextOp.delete_range key anchor len_chars) = key

unfoldable pub op_key : Op → Option Bytes
unfolding map_key list_key text_key
op_key (Op.map m) = some (map_key m)
op_key (Op.text t) = some (text_key t)
op_key (Op.list l) = some (list_key l)
