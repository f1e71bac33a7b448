-- ===== src/Sse/Client.antt =====
-- stream.go: what the client makes of the stream. The consumer takes every event; Close, which gives up
-- the rest of them, is left out. json.Unmarshal of a payload is the parameter `decode`.
use turnhive.Base.{
  Bool, ◌&&◌, ◌||◌, zero, Option, none, some, List, [], ◌∷◌, ◌++◌, Bytes, codes, eqb, length,
  has_prefix, drop, ◌==◌, bytes_eq, if◌then◌else◌,
}
use turnhive.Base.Int.{ℤ, pos, parse_int}
use turnhive.Base.Split.{split}
use turnhive.Truncate.{newline, is_empty}
use turnhive.Files.{is_blank}
use turnhive.Patch.{cut_prefix}
use turnhive.Session.State.{PersistedObject, FileRecord}

pub record SyncMessage : Type 0 where
  pub role : Bytes
  pub content : Bytes

pub record EventPayload : Type 0 where
  pub turn_id : Bytes
  pub seq : ℤ
  pub text : Bytes
  pub id : Bytes
  pub name : Bytes
  pub title : Bytes
  pub status : Bytes
  pub message : Bytes
  pub messages : List SyncMessage
  pub persisted : List PersistedObject
  pub files : List FileRecord

-- An event: its type and number, and the payload's other fields.
pub record Event : Type 0 where
  pub kind : Bytes
  pub seq : ℤ
  pub turn_id : Bytes
  pub text : Bytes
  pub id : Bytes
  pub name : Bytes
  pub title : Bytes
  pub status : Bytes
  pub message : Bytes
  pub messages : List SyncMessage
  pub persisted : List PersistedObject
  pub files : List FileRecord

-- The frame that is being read.
pub record Frame : Type 0 where
  pub name : Bytes
  pub data_ : Bytes
  pub frame_seq : ℤ

abbrev pub new_frame : Frame
new_frame = record { name = []; data_ = []; frame_seq = pos 0 }

-- strings.TrimRight(line, "\r\n")
unfoldable pub trim_line_end : Bytes → Bytes
trim_line_end [] = []
trim_line_end (c ∷ s) =
    let rest = trim_line_end s in
    if is_empty rest && (eqb c b'\r' || eqb c b'\n') then [] else c ∷ rest

-- strings.TrimPrefix(v, " ")
abbrev pub trim_space_prefix : Bytes → Bytes
trim_space_prefix v = if has_prefix v (codes " ") then drop 1 v else v

abbrev pub read_seq : Option ℤ → Frame → Frame
read_seq none f = f
read_seq (some n) f = record f { frame_seq = n }

abbrev pub add_data : Bytes → Frame → Frame
add_data v f = record f {
  data_ = if eqb (length f.data_) 0 then f.data_ ++ v else f.data_ ++ newline ∷ v;
}

abbrev pub field_data : Option Bytes → Frame → Frame
field_data none f = f
field_data (some v) f = add_data (trim_space_prefix v) f

abbrev pub field_id : Option Bytes → Option Bytes → Frame → Frame
field_id none value f = field_data value f
field_id (some v) value f = read_seq (parse_int (trim_space_prefix v)) f

abbrev pub field_event : Option Bytes → Option Bytes → Option Bytes → Frame → Frame
field_event none number value f = field_id number value f
field_event (some v) number value f = record f { name = trim_space_prefix v }

unfoldable pub parse_line : Bytes → Frame → Frame
parse_line line f =
    if has_prefix line (codes ":")
    then f
    else field_event (cut_prefix (codes "event:") line) (cut_prefix (codes "id:") line)
        (cut_prefix (codes "data:") line) f

abbrev pub frame_seq_or : ℤ → ℤ → ℤ
frame_seq_or (pos zero) seq = seq
frame_seq_or n seq = n

unfoldable pub event_from : Frame → EventPayload → Event
event_from f p = record {
  kind = f.name;
  seq = frame_seq_or f.frame_seq p.seq;
  turn_id = p.turn_id;
  text = p.text;
  id = p.id;
  name = p.name;
  title = p.title;
  status = p.status;
  message = p.message;
  messages = p.messages;
  persisted = p.persisted;
  files = p.files;
}

-- Err of the stream.
pub data StreamEnd : Type 0 where
  clean : StreamEnd
  read_failed : StreamEnd
  malformed : Bytes → StreamEnd

-- The events that the stream delivers, and how it ends.
abbrev pub Delivered : Type 0
Delivered = List Event × StreamEnd

abbrev pub deliver : Event → Delivered → Delivered
deliver ev (evs, end) = (ev ∷ evs, end)

module _ (decode : Bytes → Option EventPayload) where
  -- `dispatch` and what comes after it.
  unfoldable pub dispatch : Frame → Delivered → Delivered
  dispatch f rest = if f.data_ == [] then rest else elim (decode f.data_) [
    | none ↦ ([], malformed f.data_)
    | some p ↦ deliver (event_from f p) rest
  ]

  -- The end of the body, with the last line, which no newline ends.
  unfoldable pub finish_lines : Bool → Frame → Bytes → Delivered
  finish_lines failed f last =
      if failed
      then ([], read_failed)
      else dispatch (if is_blank last then f else parse_line last f) ([], clean)

  -- The loop over the lines; `failed` tells whether reading stops with an error or at the end.
  unfoldable pub run_lines : Bool → Frame → List Bytes → Delivered
  run_lines failed f [] = finish_lines failed f []
  run_lines failed f (last ∷ []) = finish_lines failed f last
  run_lines failed f (l ∷ m ∷ lines) =
      let blank = run_lines failed new_frame (m ∷ lines) in
      let field = run_lines failed (parse_line (trim_line_end l) f) (m ∷ lines) in
      if trim_line_end l == [] then dispatch f blank else field

  unfoldable pub run_stream : Bool → Bytes → Delivered
  run_stream failed body = run_lines failed new_frame (split newline body)
