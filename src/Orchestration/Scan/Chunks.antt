-- ===== src/Orchestration/Scan/Chunks.antt =====
-- How a stream is cut into chunks makes no difference to what `StreamScan` reads
-- (`application/orchestration.py`).
use Prim.Native.String.{count}
use code_zard.Prelude.{
  ◌≤◌, String, false, Option, none, some, List, [], ◌∷◌, ◌++◌, ◌&&◌, ◌≡◌, refl, sym, ap, ◌∙◌,
  Bool-cases, inl, inr,
}
use text.Mathlib.TextLemmas.{append-nil, append_assoc}
use code_zard.Prelude.Text.{same, concat}
use code_zard.Prelude.Result.{Result, ok, err, ◌>>=◌}
use code_zard.Json.{Json, Fields, object, get, as_object, truthy}
use code_zard.Billing.Agent.{ReadError, from_agent}
use code_zard.Orchestration.Scan.{
  StreamScan, fresh, max_tail, cut, read, read_lines, feed, take_project, take_cost, take_found,
  read_event, read_data, read_document, is_text, search_id, data_of,
}
use code_zard.Orchestration.Scan.Cut.{
  nil_concat, join_cut, cut-concat, cut-last, Short, Short-last, Short-join_cut, keep_last_lem,
}

abbrev with_tail : String → StreamScan → StreamScan
with_tail t s = record s { tail = t }

abbrev join : List String → String
join [] = ""
join (chunk ∷ chunks) = concat chunk (join chunks)

module _ {A B C E : Type 0} (f : A → Result E B) where
  bind_assoc : (m : Result E A) (g : B → Result E C) → ((m >>= f) >>= g) ≡ (m >>= λ x. f x >>= g)
  bind_assoc (ok a) g = refl
  bind_assoc (err e) g = refl

module _ {A B E : Type 0} (f : A → Result E B) where
  bind_congr : (m : Result E A) (g : A → Result E B) → ((a : A) → f a ≡ g a) → (m >>= f) ≡ (m >>= g)
  bind_congr (ok a) g h = h a
  bind_congr (err e) g h = refl

-- A result with another tail.
abbrev retail : String → Result ReadError StreamScan → Result ReadError StreamScan
retail t r = r >>= λ s. ok (with_tail t s)

module _ (loads : String → Option Json) (render : Json → String) where
  -- The calls of `feed` for the chunks of a stream.
  unfoldable pub feed_all : List String → StreamScan → Result ReadError StreamScan
  unfolding feed
  feed_all [] s = ok s
  feed_all (chunk ∷ chunks) s = feed loads render chunk s >>= feed_all chunks

  take_project-with_tail :
      (project : Option Fields) (t : String) (s : StreamScan)
      → take_project loads render project (with_tail t s)
        ≡ with_tail t (take_project loads render project s)
  take_project-with_tail none t s = refl
  take_project-with_tail (some project) t s = elim (Bool-cases (truthy (get "id" project))) [
    | inl named ↦ rw named
    | inr nameless ↦ rw nameless
  ]

  take_cost-with_tail :
      (cost : Json) (t : String) (s : StreamScan)
      → take_cost loads render cost (with_tail t s) ≡ retail t (take_cost loads render cost s)
  take_cost-with_tail (object cost) t s = sym (
      bind_assoc (λ usage. ok (record s { usage = usage })) (from_agent render (object cost))
        (λ s'. ok (with_tail t s')))
  take_cost-with_tail _ t s = refl

  take_found-with_tail :
      (id : Option String) (t : String) (s : StreamScan)
      → take_found loads render id (with_tail t s) ≡ with_tail t (take_found loads render id s)
  take_found-with_tail none t s = refl
  take_found-with_tail (some id) t s = refl

  read_event-with_tail :
      (line : String) (event : Fields) (t : String) (s : StreamScan)
      → read_event loads render line event (with_tail t s)
        ≡ retail t (read_event loads render line event s)
  unfolding read_event
  read_event-with_tail line event t s = elim (Bool-cases (is_text "done" (get "type" event))) [
    | inl done ↦
        let project = as_object (get "project" event) in
        let cost = get "cost" event in
        rw (done, take_project-with_tail project t s)
          (take_cost-with_tail cost t (take_project loads render project s))
    | inr going ↦ elim (Bool-cases (same s.artifact "" && is_text "artifact" (get "name" event))) [
      | inl step ↦ rw (going, step, take_found-with_tail (search_id false line) t s)
      | inr other ↦ rw (going, other)
    ]
  ]

  read_data-with_tail :
      (line : String) (v : Option Json) (t : String) (s : StreamScan)
      → read_data loads render line v (with_tail t s) ≡ retail t (read_data loads render line v s)
  read_data-with_tail line (some (object event)) t s = read_event-with_tail line event t s
  read_data-with_tail line _ t s = refl

  read_document-with_tail :
      (line : String) (d : Option String) (t : String) (s : StreamScan)
      → read_document loads render line d (with_tail t s)
        ≡ retail t (read_document loads render line d s)
  read_document-with_tail line none t s = refl
  read_document-with_tail line (some d) t s = read_data-with_tail line (loads d) t s

  -- Reading lines neither looks at the tail nor changes it.
  read-with_tail :
      (t line : String) (s : StreamScan)
      → read loads render line (with_tail t s) ≡ retail t (read loads render line s)
  unfolding read
  read-with_tail t line s = read_document-with_tail line (data_of line) t s

  read_lines-with_tail :
      (t : String) (lines : List String) (s : StreamScan)
      → read_lines loads render lines (with_tail t s) ≡ retail t (read_lines loads render lines s)
  unfolding read_lines
  read_lines-with_tail t [] s = refl
  read_lines-with_tail t (line ∷ lines) s =
      ap (λ m. m >>= read_lines loads render lines) (read-with_tail t line s)
      ∙ bind_assoc (λ s'. ok (with_tail t s')) (read loads render line s)
          (read_lines loads render lines)
      ∙ bind_congr (λ s'. read_lines loads render lines (with_tail t s')) (read loads render line s)
          (λ s'. retail t (read_lines loads render lines s'))
          (λ s'. read_lines-with_tail t lines s')
      ∙ sym (
          bind_assoc (read_lines loads render lines) (read loads render line s)
            (λ s'. ok (with_tail t s')))

  read_lines-append :
      (lines more : List String) (s : StreamScan)
      → read_lines loads render (lines ++ more) s
        ≡ (read_lines loads render lines s >>= read_lines loads render more)
  unfolding read_lines
  read_lines-append [] more s = refl
  read_lines-append (line ∷ lines) more s =
      bind_congr (read_lines loads render (lines ++ more)) (read loads render line s)
        (λ s'. read_lines loads render lines s' >>= read_lines loads render more)
        (λ s'. read_lines-append lines more s')
      ∙ sym (
          bind_assoc (read_lines loads render lines) (read loads render line s)
            (read_lines loads render more))

  -- A call of `feed` reads the lines that end in its chunk, and keeps the rest when that is short.
  feed-with_tail :
      (r chunk : String) (s : StreamScan)
      → count (cut (concat r chunk)).1 ≤ max_tail
      → feed loads render chunk (with_tail r s)
        ≡ retail (cut (concat r chunk)).1 (read_lines loads render (cut (concat r chunk)).0 s)
  unfolding feed
  feed-with_tail r chunk s fits =
      let p = cut (concat r chunk) in
      rw (keep_last_lem max_tail p.1 fits) (read_lines-with_tail p.1 p.0 s)

  -- What reading a whole text at once gives.
  abbrev pub read_whole : String → StreamScan → Result ReadError StreamScan
  read_whole whole s = retail (cut whole).1 (read_lines loads render (cut whole).0 s)

  feed_all-with_tail :
      (chunks : List String) (r : String) (s : StreamScan)
      → cut r ≡ ([], r)
      → Short (cut (concat r (join chunks)))
      → feed_all chunks (with_tail r s) ≡ read_whole (concat r (join chunks)) s
  unfolding feed_all read_lines
  feed_all-with_tail [] r s unbroken short = rw (append-nil r, unbroken)
  feed_all-with_tail (chunk ∷ chunks) r s unbroken short =
      let so_far = concat r chunk in
      let p = cut so_far in
      let regroup : concat r (concat chunk (join chunks)) ≡ concat so_far (join chunks) =
        sym (append_assoc r chunk (join chunks)) in
      let short' : Short (cut (concat so_far (join chunks))) = rw regroup at short in
      let q = cut (concat p.1 (join chunks)) in
      let short'' : Short (join_cut p.0 q) = rw (cut-concat so_far (join chunks)) at short' in
      let now = read_lines loads render p.0 s in
      let finish : StreamScan → Result ReadError StreamScan = λ s'. ok (with_tail q.1 s') in
      ap (λ m. m >>= feed_all chunks)
        (feed-with_tail r chunk s (Short-last so_far (join chunks) short'))
      ∙ bind_assoc (λ s'. ok (with_tail p.1 s')) now (feed_all chunks)
      ∙ bind_congr (λ s'. feed_all chunks (with_tail p.1 s')) now
          (λ s'. retail q.1 (read_lines loads render q.0 s'))
          (λ s'. feed_all-with_tail chunks p.1 s' (cut-last so_far) (Short-join_cut p.0 q short''))
      ∙ sym (bind_assoc (read_lines loads render q.0) now finish)
      ∙ sym (ap (retail q.1) (read_lines-append p.0 q.0 s))
      ∙ ap (λ c. retail c.1 (read_lines loads render c.0 s)) (sym (cut-concat so_far (join chunks)))
      ∙ ap (λ whole. read_whole whole s) (sym regroup)

  -- However a stream is cut into chunks, feeding them reads what reading its complete lines, each once
  -- and in order, would read, as long as no line is longer than the tail that is kept.
  pub feed_all-eq-read_whole :
      (chunks : List String)
      → Short (cut (join chunks))
      → feed_all chunks fresh ≡ read_whole (join chunks) fresh
  unfolding cut
  feed_all-eq-read_whole chunks short =
      feed_all-with_tail chunks "" fresh refl (rw (nil_concat (join chunks)) short)
      ∙ ap (λ whole. read_whole whole fresh) (nil_concat (join chunks))
