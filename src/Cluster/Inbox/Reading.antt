-- ===== src/Cluster/Inbox/Reading.antt =====
-- One turn of `_readLoop` in infra/cluster/CallInbox.js.
use callio.Prelude.{
  ℕ, ◌<◌, ◌≡◌, refl, ◌∙◌, inl, inr, Bool, true, false, ◌&&◌, ◌||◌, List, [], ◌∷◌, ◌++◌, ltb, find,
  if◌then◌else◌, arith, Bool-cases, Option-cases,
}
use callio.Cluster.Inbox.{
  Entry, Inbox, Reader, deliver_to, entries_after, is_empty, is_of, last_of, poll, read_entries,
}
use callio.Cluster.Inbox.Delivery.{
  Fits, Sound, is_posted, was_delivered, delivered-append, delivered-deliver_to,
  posted-entries_after, last_of-bound, advance-AllFit, find-AllFit, weaken-AllFit,
}

of_empty : (j : ℕ) (es : List Entry) → is_empty es ≡ true → is_posted j es ≡ false
of_empty j [] e = refl
of_empty j (x ∷ es) e = absurd (cc)

-- What is delivered in one turn: the entries after the reader's last one.
module _ (r : Reader) (s : Inbox) (h : Sound s)
    (f : Fits s.next_id s.entries s.delivered r.last_id) where
  delivered_now :
      (j : ℕ)
      → was_delivered j (s.delivered ++ deliver_to r.worker (entries_after r.last_id s.entries))
        ≡ (was_delivered j s.delivered || (is_posted j s.entries && ltb r.last_id j))
  delivered_now j =
      let news = entries_after r.last_id s.entries in
      let a = delivered-append j s.delivered (deliver_to r.worker news) in
      let b = delivered-deliver_to j r.worker news in
      let c = posted-entries_after j r.last_id s.entries in rw (a, b, c) refl

  -- After the turn every entry has been delivered.
  all_delivered :
      (j : ℕ)
      → is_posted j s.entries ≡ true
      → was_delivered j (s.delivered ++ deliver_to r.worker (entries_after r.last_id s.entries))
        ≡ true
  all_delivered j p = elim (Bool-cases (ltb r.last_id j)) [
    | inl l ↦ delivered_now j ∙ ground (arith, p, l)
    | inr l ↦
        let done : was_delivered j s.delivered ≡ true = f.1 j p (ground (arith, l)) in
        delivered_now j ∙ ground (arith, done)
  ]

  read_entries-Sound : (saved : Bool) → Sound (read_entries saved r s)
  unfolding read_entries
  read_entries-Sound saved =
      let news = entries_after r.last_id s.entries in
      let last = last_of r.last_id news in
      let ds = s.delivered ++ deliver_to r.worker news in
      let bound : last < s.next_id =
        last_of-bound r.last_id s.next_id news
          (λ j p. h.posted_known j (ground (arith, p, posted-entries_after j r.last_id s.entries)))
          f.0 in
      let whole : (k : ℕ) → k < s.next_id → Fits s.next_id s.entries ds k =
        λ k l. (l, λ j p m. all_delivered j p) in
      elim (Bool-cases (is_empty news)) [
        | inl e ↦ rw (read_entries, e) h
        | inr e ↦
            rw (read_entries, e)
              (record {
                cursor_fits =
                    whole (if saved then last else s.cursor)
                      (ground (arith, bound, h.cursor_fits.0));
                readers_fit =
                    advance-AllFit s.next_id s.entries ds r.worker last s.readers (whole last bound)
                      (weaken-AllFit s.next_id s.entries s.delivered s.next_id s.entries ds
                        s.readers (λ k g. whole k g.0) h.readers_fit);
                delivered_known = λ i d.
                    ground (arith, d, delivered_now i, h.delivered_known i, h.posted_known i);
                posted_known = h.posted_known;
                in_order = λ i j d p l. all_delivered j p;
              })
      ]

  nothing_new :
      is_empty (entries_after r.last_id s.entries) ≡ true
      → (j : ℕ) → is_posted j s.entries ≡ true
      → was_delivered j s.delivered ≡ true
  nothing_new e j p =
      let none_after = posted-entries_after j r.last_id s.entries in
      f.1 j p (ground (arith, p, none_after, of_empty j (entries_after r.last_id s.entries) e))

  pub read_entries-all :
      (saved : Bool) (j : ℕ)
      → is_posted j s.entries ≡ true
      → was_delivered j (read_entries saved r s).delivered ≡ true
  unfolding read_entries
  read_entries-all saved j p = elim (Bool-cases (is_empty (entries_after r.last_id s.entries))) [
    | inl e ↦ rw (read_entries, e) (nothing_new e j p)
    | inr e ↦ rw (read_entries, e) (all_delivered j p)
  ]

pub poll-Sound : (w : ℕ) (saved : Bool) (s : Inbox) → Sound s → Sound (poll w saved s)
unfolding poll
poll-Sound w saved s h = elim (Option-cases (find (is_of w) s.readers)) [
  | inl e ↦ rw (poll, e) h
  | inr (r, e) ↦ elim (Bool-cases r.has_handler) [
    | inl q ↦
        rw (poll, e, q)
          (read_entries-Sound r s h
            (find-AllFit s.next_id s.entries s.delivered (is_of w) s.readers r h.readers_fit e)
            saved)
    | inr q ↦ rw (poll, e, q) h
  ]
]
