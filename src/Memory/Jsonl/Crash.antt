-- ===== src/Memory/Jsonl/Crash.antt =====
-- pkg/memory/jsonl.go: a process that stops between or within the writes of an operation.
use moon_hub.Base.{
  ℕ, zero, suc, ◌≡◌, refl, ap, ◌∙◌, Bool, true, false, some, List, [], ◌∷◌, ◌++◌, map, ◌==◌,
  if◌then◌else◌, take, drop,
}
use moon_hub.Memory.Messages.{Message, reread}
use moon_hub.Memory.Jsonl.{
  Line, message, corrupt, SessionMeta, Disk, write_meta, rewrite_jsonl, all_lines, perform,
  perform_all, read_meta, decode, read_messages, add_msg, get_history, compact,
}
use moon_hub.Memory.Jsonl.Facts.{get_history-rewritten}

module _ {A : Type 0} where
  -- `whole` is `history` with messages before it.
  pub record IsExtended (history whole : List (Message A)) : Type 0 where
    pub earlier : List (Message A)
    pub joined : whole ≡ earlier ++ history

  decode-append : (xs ys : List (Line A)) → decode (xs ++ ys) ≡ decode xs ++ decode ys
  decode-append [] ys = refl
  decode-append (message m ∷ xs) ys = ap (λ l. reread m ∷ l) (decode-append xs ys)
  decode-append (corrupt ∷ xs) ys = decode-append xs ys

  decode-drop : (n : ℕ) (ls : List (Line A)) → decode ls ≡ decode (take n ls) ++ decode (drop n ls)
  decode-drop zero ls = refl
  decode-drop (suc n) [] = refl
  decode-drop (suc n) (message m ∷ ls) = ap (λ l. reread m ∷ l) (decode-drop n ls)
  decode-drop (suc n) (corrupt ∷ ls) = decode-drop n ls

  rewritten :
      (new : SessionMeta) (d : Disk A)
      → new.skip ≡ 0
      → IsExtended
          (get_history d)
          (get_history (perform (rewrite_jsonl (get_history d)) (perform (write_meta new) d)))
  unfolding perform get_history read_messages read_meta
  rewritten new d zero_skip = record {
    earlier = [];
    joined =
        ap (λ n. decode (drop n (map message (get_history d)))) zero_skip ∙ get_history-rewritten d;
  }

  crashed :
      (n : ℕ) (is_done : Bool) (new : SessionMeta) (d : Disk A)
      → new.skip ≡ 0
      → IsExtended (get_history d) (
          get_history (
            perform_all
              (take n (if is_done then [] else write_meta new ∷ rewrite_jsonl (get_history d) ∷ []))
              d))
  unfolding perform_all perform get_history read_messages read_meta
  crashed zero is_done new d zero_skip = record { earlier = []; joined = refl }
  crashed (suc n) true new d zero_skip = record { earlier = []; joined = refl }
  crashed (suc zero) false new d zero_skip = record {
    earlier = decode (take (read_meta d).skip (all_lines d.jsonl));
    joined =
        ap (λ n. decode (drop n (all_lines d.jsonl))) zero_skip
        ∙ decode-drop (read_meta d).skip (all_lines d.jsonl);
  }
  crashed (suc (suc zero)) false new d zero_skip = rewritten new d zero_skip
  crashed (suc (suc (suc n))) false new d zero_skip = rewritten new d zero_skip

  -- A compaction that crashes after any number of its writes loses no message: what `GetHistory`
  -- returns ends with the whole history from before, whatever is on the disk.
  pub compact-crash :
      (n now : ℕ) (d : Disk A)
      → IsExtended (get_history d) (get_history (perform_all (take n (compact now d)) d))
  unfolding compact get_history
  compact-crash n now d = crashed n ((read_meta d).skip == 0) _ d refl

  -- A message that is added after an append torn by a crash is never read: the history stays what
  -- it was.
  pub get_history-torn :
      (now : ℕ) (msg : Message A) (d : Disk A)
      → d.jsonl.tail ≡ some corrupt
      → get_history (perform_all (add_msg now msg d) d) ≡ get_history d
  unfolding add_msg perform_all perform get_history read_messages read_meta
  get_history-torn now msg d torn = rw torn

  -- A compaction that crashed between its two writes, with lines to skip, brings the skipped
  -- messages back, and the next compaction does not drop them: it writes nothing.
  pub compact-uncorrected :
      (now later : ℕ) (d : Disk A)
      → ((read_meta d).skip == 0) ≡ false
      → (get_history (perform_all (take 1 (compact now d)) d) ≡ decode (all_lines d.jsonl))
        × (compact later (perform_all (take 1 (compact now d)) d) ≡ [])
  unfolding compact perform_all perform get_history read_messages read_meta
  compact-uncorrected now later d h = (rw h, rw h)
