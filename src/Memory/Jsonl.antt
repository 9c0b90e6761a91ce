-- ===== src/Memory/Jsonl.antt =====
-- pkg/memory/jsonl.go: the files of one session. An operation is the list of its writes to the disk,
-- each of which takes effect as a whole except the append; a crash leaves the first few. Errors of
-- the file system and lines over 10 MB are not modelled.
pub mod Facts
pub mod Crash
pub mod Refinement
use moon_hub.Base.{
  ℕ, suc, ◌+◌, ◌-◌, String, Bool, true, false, ◌&&◌, Option, none, some, List, [], ◌∷◌, ◌++◌, map,
  ltb, ◌==◌, if◌then◌else◌, length, drop,
}
use moon_hub.Memory.Messages.{Message, reread}

-- A line that is not empty: the JSON text of a message, or one that is skipped as corrupt.
pub data Line (A : Type 0) : Type 0 where
  message : Message A → Line A
  corrupt : Line A

-- `tail` is what follows the last newline, if anything does.
pub record JsonlFile (A : Type 0) : Type 0 where
  pub lines : List (Line A)
  pub tail : Option (Line A)

pub record SessionMeta : Type 0 where
  pub summary : String
  pub skip : ℕ
  pub count : ℕ
  -- The zero time is 0.
  pub created_at : ℕ
  pub updated_at : ℕ

-- The two files of a session; a missing `.jsonl` file reads as an empty one.
pub record Disk (A : Type 0) : Type 0 where
  pub jsonl : JsonlFile A
  pub meta : Option SessionMeta

pub data Write (A : Type 0) : Type 0 where
  append_line : Message A → Write A
  write_meta : SessionMeta → Write A
  rewrite_jsonl : List (Message A) → Write A

abbrev pub empty_meta : SessionMeta
empty_meta = record { summary = ""; skip = 0; count = 0; created_at = 0; updated_at = 0 }

abbrev pub created : ℕ → ℕ → ℕ
created now at = if at == 0 then now else at

-- `keep_last` is 0 for every `keepLast` that is not positive.
abbrev pub truncated_skip : ℕ → ℕ → ℕ → ℕ
truncated_skip keep_last count skip =
    if keep_last == 0
    then count
    else if ltb keep_last (count - skip)
    then count - keep_last
    else skip

module _ {A : Type 0} where
  unfoldable pub empty_disk : Disk A
  empty_disk = record { jsonl = record { lines = []; tail = none }; meta = none }

  -- What `bufio.Scanner` yields: an unterminated last line too.
  abbrev pub all_lines : JsonlFile A → List (Line A)
  all_lines f = elim f.tail [ none ↦ f.lines | some l ↦ f.lines ++ l ∷ [] ]

  -- An append to an unterminated line joins the two: that line no longer decodes.
  abbrev pub append_file : Message A → JsonlFile A → JsonlFile A
  append_file msg f = elim f.tail [
    | none ↦ record f { lines = f.lines ++ message msg ∷ [] }
    | some l ↦ record { lines = f.lines ++ corrupt ∷ []; tail = none }
  ]

  unfoldable pub perform : Write A → Disk A → Disk A
  perform (append_line msg) d = record d { jsonl = append_file msg d.jsonl }
  perform (write_meta meta) d = record d { meta = some meta }
  perform (rewrite_jsonl msgs) d = record d {
    jsonl = record { lines = map message msgs; tail = none };
  }

  unfoldable pub perform_all : List (Write A) → Disk A → Disk A
  unfolding perform
  perform_all [] d = d
  perform_all (w ∷ ws) d = perform_all ws (perform w d)

  unfoldable pub read_meta : Disk A → SessionMeta
  read_meta d = elim d.meta [ none ↦ empty_meta | some meta ↦ meta ]

  -- The loop of `readMessages` behind the skipped lines.
  abbrev pub decode : List (Line A) → List (Message A)
  decode [] = []
  decode (message msg ∷ ls) = reread msg ∷ decode ls
  decode (corrupt ∷ ls) = decode ls

  unfoldable pub read_messages : ℕ → JsonlFile A → List (Message A)
  read_messages skip f = decode (drop skip (all_lines f))

  unfoldable pub count_lines : JsonlFile A → ℕ
  count_lines f = length (all_lines f)

  unfoldable pub add_msg : ℕ → Message A → Disk A → List (Write A)
  unfolding read_meta
  add_msg now msg d =
      let meta = read_meta d in
      append_line msg
      ∷ write_meta (record meta {
        created_at = if meta.count == 0 && meta.created_at == 0 then now else meta.created_at;
        count = meta.count + 1;
        updated_at = now;
      })
      ∷ []

  unfoldable pub get_history : Disk A → List (Message A)
  unfolding read_meta read_messages
  get_history d = read_messages (read_meta d).skip d.jsonl

  unfoldable pub get_summary : Disk A → String
  unfolding read_meta
  get_summary d = (read_meta d).summary

  unfoldable pub set_summary : ℕ → String → Disk A → List (Write A)
  unfolding read_meta
  set_summary now summary d =
      let meta = read_meta d in
      write_meta (record meta {
        created_at = created now meta.created_at;
        summary = summary;
        updated_at = now;
      })
      ∷ []

  unfoldable pub truncate_history : ℕ → ℕ → Disk A → List (Write A)
  unfolding read_meta count_lines
  truncate_history now keep_last d =
      let meta = read_meta d in
      let n = count_lines d.jsonl in
      write_meta
        (record meta { count = n; skip = truncated_skip keep_last n meta.skip; updated_at = now })
      ∷ []

  unfoldable pub set_history : ℕ → List (Message A) → Disk A → List (Write A)
  unfolding read_meta
  set_history now history d =
      let meta = read_meta d in
      write_meta (record meta {
        created_at = created now meta.created_at;
        skip = 0;
        count = length history;
        updated_at = now;
      })
      ∷ rewrite_jsonl history
      ∷ []

  unfoldable pub compact : ℕ → Disk A → List (Write A)
  unfolding read_meta read_messages
  compact now d =
      let meta = read_meta d in
      let active = read_messages meta.skip d.jsonl in
      if meta.skip == 0
      then []
      else write_meta (record meta { skip = 0; count = length active; updated_at = now })
        ∷ rewrite_jsonl active
        ∷ []
