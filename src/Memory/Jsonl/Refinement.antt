-- ===== src/Memory/Jsonl/Refinement.antt =====
-- pkg/memory/jsonl.go: sequences of operations on one session against the list of messages that the
-- `Store` interface of pkg/memory/store.go promises.
use moon_hub.Base.{
  ℕ, suc, ◌+◌, ◌-◌, ◌≤◌, ◌≡◌, refl, sym, ap, ◌∙◌, String, Bool, true, false, none, List, [], ◌∷◌,
  ◌++◌, map, arith, if◌then◌else◌, length, length-append, drop, length-drop, drop-append,
}
use moon_hub.Memory.Messages.{Message, reread}
use moon_hub.Memory.Jsonl.{
  Line, message, JsonlFile, SessionMeta, Disk, Write, append_line, write_meta, rewrite_jsonl,
  empty_disk, all_lines, append_file, perform, perform_all, read_meta, decode, read_messages,
  count_lines, add_msg, get_history, set_summary, truncated_skip, truncate_history, set_history,
  compact,
}
use moon_hub.Memory.Jsonl.Facts.{
  drop-drop, decode-map, drop-map, length-map, map-append, reread_all_twice,
}

-- `add_crashed` is an addition that stops between its append and the update of the metadata.
pub data Op (A : Type 0) : Type 0 where
  add : Message A → Op A
  add_crashed : Message A → Op A
  summarize : String → Op A
  truncate : ℕ → Op A
  replace : List (Message A) → Op A
  compaction : Op A

truncated_skip_lem :
    (keep_last count skip : ℕ)
    → skip ≤ count
    → truncated_skip keep_last count skip ≡ count - skip - keep_last + skip
truncated_skip_lem keep_last count skip h = ground arith

module _ {A : Type 0} where
  unfoldable pub writes : ℕ → Op A → Disk A → List (Write A)
  writes now (add msg) d = add_msg now msg d
  writes now (add_crashed msg) d = append_line msg ∷ []
  writes now (summarize summary) d = set_summary now summary d
  writes now (truncate keep_last) d = truncate_history now keep_last d
  writes now (replace history) d = set_history now history d
  writes now compaction d = compact now d

  unfoldable pub run_ops : ℕ → List (Op A) → Disk A → Disk A
  run_ops now [] d = d
  run_ops now (op ∷ ops) d = run_ops (suc now) ops (perform_all (writes now op d) d)

  -- The last `n` of `history`.
  abbrev pub last_of : ℕ → List (Message A) → List (Message A)
  last_of n history = drop (length history - n) history

  -- What an operation makes of the list of messages.
  unfoldable pub specified : Op A → List (Message A) → List (Message A)
  specified (add msg) history = history ++ msg ∷ []
  specified (add_crashed msg) history = history ++ msg ∷ []
  specified (summarize _) history = history
  specified (truncate keep_last) history = last_of keep_last history
  specified (replace new) history = new
  specified compaction history = history

  unfoldable pub specified_all : List (Op A) → List (Message A) → List (Message A)
  specified_all [] history = history
  specified_all (op ∷ ops) history = specified_all ops (specified op history)

  -- The disk keeps the messages of `history`, as they are read back, behind the skipped lines of a
  -- file without corrupt or torn lines.
  pub record Keeps (d : Disk A) (history : List (Message A)) : Type 0 where
    pub stored : List (Message A)
    pub file : d.jsonl ≡ (record { lines = map message stored; tail = none })
    pub bounded : (read_meta d).skip ≤ length stored
    pub behind : map reread (drop (read_meta d).skip stored) ≡ map reread history

  abbrev terminated : List (Line A) → JsonlFile A
  terminated ls = record { lines = ls; tail = none }

  map-snoc :
      (ms : List (Message A)) (msg : Message A)
      → map message ms ++ message msg ∷ [] ≡ map message (ms ++ msg ∷ [])
  map-snoc [] msg = refl
  map-snoc (m ∷ ms) msg = ap (λ l. message m ∷ l) (map-snoc ms msg)

  keeps-history :
      (d : Disk A) (history : List (Message A))
      → Keeps d history
      → get_history d ≡ map reread history
  unfolding get_history
  keeps-history d history k =
      ap (read_messages (read_meta d).skip) k.file
      ∙ ap decode (drop-map message (read_meta d).skip k.stored)
      ∙ decode-map (drop (read_meta d).skip k.stored)
      ∙ k.behind

  appended :
      (msg : Message A) (d : Disk A) (history : List (Message A))
      → Keeps d history
      → Keeps (perform (append_line msg) d) (history ++ msg ∷ [])
  unfolding perform read_meta
  appended msg d history k = record {
    stored = k.stored ++ msg ∷ [];
    file = ap (append_file msg) k.file ∙ ap terminated (map-snoc k.stored msg);
    bounded = omega (arith, length-append k.stored (msg ∷ []), k.bounded);
    behind =
        ap (map reread) (drop-append (read_meta d).skip k.stored (msg ∷ []) k.bounded)
        ∙ map-append reread (drop (read_meta d).skip k.stored) (msg ∷ [])
        ∙ ap (λ h. h ++ reread msg ∷ []) k.behind
        ∙ sym (map-append reread history (msg ∷ []));
  }

  -- New metadata with the same skip.
  same_skip :
      (new : SessionMeta) (d : Disk A) (history : List (Message A))
      → new.skip ≡ (read_meta d).skip
      → Keeps d history
      → Keeps (perform (write_meta new) d) history
  unfolding perform read_meta
  same_skip new d history e k = record {
    stored = k.stored;
    file = k.file;
    bounded = omega (arith, e, k.bounded);
    behind = ap (λ n. map reread (drop n k.stored)) e ∙ k.behind;
  }

  drop-truncated_skip :
      (keep_last skip : ℕ) (ms : List (Message A))
      → skip ≤ length ms
      → drop (truncated_skip keep_last (length ms) skip) ms ≡ last_of keep_last (drop skip ms)
  drop-truncated_skip keep_last skip ms h =
      ap (λ n. drop n ms)
        (truncated_skip_lem keep_last (length ms) skip h
          ∙ ap (λ n. n - keep_last + skip) (sym (length-drop skip ms)))
      ∙ sym (drop-drop (length (drop skip ms) - keep_last) skip ms)

  map-last_of :
      (n : ℕ) (ms : List (Message A)) → map reread (last_of n ms) ≡ last_of n (map reread ms)
  map-last_of n ms =
      sym (drop-map reread (length ms - n) ms)
      ∙ ap (λ k. drop (k - n) (map reread ms)) (sym (length-map reread ms))

  length-file :
      (d : Disk A) (history : List (Message A)) (k : Keeps d history)
      → count_lines d.jsonl ≡ length k.stored
  unfolding count_lines
  length-file d history k = ap (λ f. length (all_lines f)) k.file ∙ length-map message k.stored

  truncated :
      (now keep_last : ℕ) (d : Disk A) (history : List (Message A))
      → Keeps d history
      → Keeps (perform_all (truncate_history now keep_last d) d) (last_of keep_last history)
  unfolding truncate_history perform_all perform read_meta
  truncated now keep_last d history k =
      let skip = (read_meta d).skip in
      let e = length-file d history k in
      record {
        stored = k.stored;
        file = k.file;
        bounded = omega (
          arith,
          e,
          k.bounded,
          truncated_skip_lem keep_last (count_lines d.jsonl) skip (omega (arith, e, k.bounded)),
        );
        behind =
            ap (λ n. map reread (drop (truncated_skip keep_last n skip) k.stored)) e
            ∙ ap (map reread) (drop-truncated_skip keep_last skip k.stored k.bounded)
            ∙ map-last_of keep_last (drop skip k.stored)
            ∙ ap (last_of keep_last) k.behind
            ∙ sym (map-last_of keep_last history);
      }

  replaced :
      (now : ℕ) (new : List (Message A)) (d : Disk A)
      → Keeps (perform_all (set_history now new d) d) new
  unfolding set_history perform_all perform read_meta
  replaced now new d = record { stored = new; file = refl; bounded = omega arith; behind = refl }

  rewritten :
      (is_done : Bool) (new : SessionMeta) (active : List (Message A)) (d : Disk A)
      (history : List (Message A))
      → new.skip ≡ 0
      → active ≡ map reread history
      → Keeps d history
      → Keeps
          (perform_all (if is_done then [] else write_meta new ∷ rewrite_jsonl active ∷ []) d)
          history
  unfolding perform_all perform read_meta
  rewritten true new active d history zero_skip e k = k
  rewritten false new active d history zero_skip e k = record {
    stored = active;
    file = refl;
    bounded = omega (arith, zero_skip);
    behind =
        ap (λ n. map reread (drop n active)) zero_skip
        ∙ ap (map reread) e
        ∙ reread_all_twice history;
  }

  compacted :
      (now : ℕ) (d : Disk A) (history : List (Message A))
      → Keeps d history
      → Keeps (perform_all (compact now d) d) history
  unfolding compact get_history
  compacted now d history k =
      rewritten _ _ (get_history d) d history refl (keeps-history d history k) k

  skip-append :
      (msg : Message A) (d : Disk A)
      → (read_meta d).skip ≡ (read_meta (perform (append_line msg) d)).skip
  unfolding perform read_meta
  skip-append msg d = refl

  step :
      (now : ℕ) (op : Op A) (d : Disk A) (history : List (Message A))
      → Keeps d history
      → Keeps (perform_all (writes now op d) d) (specified op history)
  unfolding writes specified perform_all add_msg set_summary
  step now (add msg) d history k =
      same_skip _ (perform (append_line msg) d) (history ++ msg ∷ []) (skip-append msg d)
        (appended msg d history k)
  step now (add_crashed msg) d history k = appended msg d history k
  step now (summarize summary) d history k = same_skip _ d history refl k
  step now (truncate keep_last) d history k = truncated now keep_last d history k
  step now (replace new) d history k = replaced now new d
  step now compaction d history k = compacted now d history k

  run_ops-keeps :
      (now : ℕ) (ops : List (Op A)) (d : Disk A) (history : List (Message A))
      → Keeps d history
      → Keeps (run_ops now ops d) (specified_all ops history)
  unfolding run_ops specified_all
  run_ops-keeps now [] d history k = k
  run_ops-keeps now (op ∷ ops) d history k =
      run_ops-keeps (suc now) ops (perform_all (writes now op d) d) (specified op history)
        (step now op d history k)

  -- After any operations on a new session, additions that crash before the update of the metadata
  -- included, `GetHistory` returns the list the operations specify, each message without what its
  -- JSON text leaves out, the fields Name, Arguments and ThoughtSignature of its tool calls: an
  -- addition puts its message at the end, `TruncateHistory` keeps the last `keepLast` messages, `SetHistory` replaces them, and
  -- a summary and a compaction change nothing.
  pub get_history-run_ops :
      (now : ℕ) (ops : List (Op A))
      → get_history (run_ops now ops empty_disk) ≡ map reread (specified_all ops [])
  unfolding empty_disk read_meta
  get_history-run_ops now ops = keeps-history _ _ (
      run_ops-keeps now ops empty_disk []
        (record { stored = []; file = refl; bounded = omega arith; behind = refl }))
