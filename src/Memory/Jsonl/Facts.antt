-- ===== src/Memory/Jsonl/Facts.antt =====
-- pkg/memory/jsonl.go: the messages of a session, read and rewritten.
use moon_hub.Base.{
  ℕ, zero, suc, ◌+◌, ◌≡◌, refl, sym, ap, ◌∙◌, List, [], ◌∷◌, ◌++◌, map, arith, ◌==◌, length, drop,
  inl, inr, Bool-cases,
}
use moon_hub.Memory.Messages.{Message, reread, reread_twice}
use moon_hub.Memory.Jsonl.{
  Line, message, corrupt, all_lines, read_messages, Disk, perform_all, read_meta, decode,
  get_history, set_history, compact,
}

drop-nil : {A : Type 0} (n : ℕ) → drop {A = A} n [] ≡ []
drop-nil zero = refl
drop-nil (suc n) = refl

pub drop-drop : {A : Type 0} (n k : ℕ) (xs : List A) → drop n (drop k xs) ≡ drop (n + k) xs
drop-drop n zero xs = ap (λ m. drop m xs) (omega arith)
drop-drop n (suc k) [] = drop-nil n ∙ sym (drop-nil (n + suc k))
drop-drop n (suc k) (x ∷ xs) = drop-drop n k xs ∙ drop-at (n + suc k) (omega arith)
  where
    drop-at : (m : ℕ) → suc (n + k) ≡ m → drop (n + k) xs ≡ drop m (x ∷ xs)
    drop-at m e = ap (λ i. drop i (x ∷ xs)) e

pub drop_all : {A : Type 0} (xs : List A) → drop (length xs) xs ≡ []
drop_all [] = refl
drop_all (x ∷ xs) = drop_all xs

module _ {A B : Type 0} (f : A → B) where
  pub drop-map : (n : ℕ) (xs : List A) → drop n (map f xs) ≡ map f (drop n xs)
  drop-map zero xs = refl
  drop-map (suc n) [] = refl
  drop-map (suc n) (x ∷ xs) = drop-map n xs

  pub length-map : (xs : List A) → length (map f xs) ≡ length xs
  length-map [] = refl
  length-map (x ∷ xs) = ap suc (length-map xs)

  pub map-append : (xs ys : List A) → map f (xs ++ ys) ≡ map f xs ++ map f ys
  map-append [] ys = refl
  map-append (x ∷ xs) ys = ap (λ l. f x ∷ l) (map-append xs ys)

module _ {A : Type 0} where
  pub reread_all_twice : (ms : List (Message A)) → map reread (map reread ms) ≡ map reread ms
  reread_all_twice [] = refl
  reread_all_twice (m ∷ ms) =
      ap (λ l. reread (reread m) ∷ l) (reread_all_twice ms)
      ∙ ap (λ m. m ∷ map reread ms) (reread_twice m)

  pub decode-map : (ms : List (Message A)) → decode (map message ms) ≡ map reread ms
  decode-map [] = refl
  decode-map (m ∷ ms) = ap (λ l. reread m ∷ l) (decode-map ms)

  -- Decoded messages are written and read back unchanged.
  pub decode-decode : (ls : List (Line A)) → decode (map message (decode ls)) ≡ decode ls
  decode-decode [] = refl
  decode-decode (message m ∷ ls) =
      ap (λ l. reread (reread m) ∷ l) (decode-decode ls) ∙ ap (λ m. m ∷ decode ls) (reread_twice m)
  decode-decode (corrupt ∷ ls) = decode-decode ls

  pub get_history-rewritten : (d : Disk A) → decode (map message (get_history d)) ≡ get_history d
  unfolding get_history read_messages
  get_history-rewritten d = decode-decode (drop (read_meta d).skip (all_lines d.jsonl))

  -- A compaction keeps the history, whatever is on the disk.
  pub get_history-compact :
      (now : ℕ) (d : Disk A) → get_history (perform_all (compact now d) d) ≡ get_history d
  unfolding compact perform_all get_history
  get_history-compact now d = elim (Bool-cases ((read_meta d).skip == 0)) [
    | inl e ↦ ground (arith, e)
    | inr e ↦ ground (arith, e, get_history-rewritten d)
  ]

  pub get_history-set_history :
      (now : ℕ) (ms : List (Message A)) (d : Disk A)
      → get_history (perform_all (set_history now ms d) d) ≡ map reread ms
  unfolding set_history perform_all get_history
  get_history-set_history now ms d = decode-map ms
