-- ===== src/Cluster/Inbox/Keeping.antt =====
-- The invariant, through posts, claims and releases: infra/cluster/CallInbox.js.
use callio.Prelude.{
  ℕ, suc, inl, inr, String, Bool, true, false, Option, List, [], ◌∷◌, ◌++◌, ◌==◌, arith, Bool-cases,
  Option-cases,
}
use callio.Cluster.Inbox.{
  Entry, Inbox, Reader, claim_lease, is_free_for, own, owns, post, purged, release_lease, renew,
  set_handler, start_reading, drop_reader,
}
use callio.Cluster.Inbox.Delivery.{
  AllFit, Fits, Sound, posted-append, set_handler-AllFit, filter-AllFit, weaken-AllFit,
}

pub post-Sound : (input : String) (s : Inbox) → Sound s → Sound (post input s).0
unfolding post
post-Sound input s h =
    let e : Entry = record { id = s.next_id; input = input } in
    let grown : (k : ℕ)
        → Fits s.next_id s.entries s.delivered k
        → Fits (suc s.next_id) (s.entries ++ e ∷ []) s.delivered k =
      λ k f. (
        omega (arith, f.0),
        λ j p l. f.1 j (ground (arith, p, posted-append j s.entries (e ∷ []), l, f.0)) l,
      ) in
    record {
      cursor_fits = grown s.cursor h.cursor_fits;
      readers_fit =
          weaken-AllFit s.next_id s.entries s.delivered (suc s.next_id) (s.entries ++ e ∷ [])
            s.delivered s.readers grown h.readers_fit;
      delivered_known = λ i d. omega (arith, h.delivered_known i d);
      posted_known = λ j p. ground (arith, p, posted-append j s.entries (e ∷ []), h.posted_known j);
      in_order = λ i j d p l.
          h.in_order i j d
            (ground (arith, p, posted-append j s.entries (e ∷ []), l, h.delivered_known i d)) l;
    }

pub claim_lease-Sound : (w : ℕ) (s : Inbox) → Sound s → Sound (claim_lease w s).0
unfolding claim_lease
claim_lease-Sound w s h = elim (Bool-cases (owns w s)) [
  | inl o ↦ rw (claim_lease, o) h
  | inr o ↦ elim (Bool-cases (is_free_for w s.lease)) [
    | inl f ↦
        rw (claim_lease, o, f)
          (record {
            cursor_fits = h.cursor_fits;
            readers_fit = (h.cursor_fits, h.readers_fit);
            delivered_known = h.delivered_known;
            posted_known = h.posted_known;
            in_order = h.in_order;
          })
    | inr f ↦ rw (claim_lease, o, f) h
  ]
]

-- Other readers, the same entries.
pub with_readers :
    (rs : List Reader) (s : Inbox) (lease : Option ℕ)
    → AllFit s.next_id s.entries s.delivered rs
    → Sound s
    → Sound (record s { readers = rs; lease = lease })
with_readers rs s lease f h = record {
  cursor_fits = h.cursor_fits;
  readers_fit = f;
  delivered_known = h.delivered_known;
  posted_known = h.posted_known;
  in_order = h.in_order;
}

pub start_reading-Sound : (w : ℕ) (s : Inbox) → Sound s → Sound (start_reading w s).0
unfolding start_reading
start_reading-Sound w s h = elim (Bool-cases (owns w s)) [
  | inl o ↦
      rw (start_reading, o)
        (with_readers (set_handler w s.readers) s s.lease
          (set_handler-AllFit s.next_id s.entries s.delivered w s.readers h.readers_fit) h)
  | inr o ↦ rw (start_reading, o) h
]

pub own-Sound : (w : ℕ) (s : Inbox) → Sound s → Sound (own w s).0
unfolding own
own-Sound w s h =
    let claimed = claim_lease-Sound w s h in
    elim (Bool-cases (claim_lease w s).1) [
      | inl c ↦ rw (own, c) (start_reading-Sound w (claim_lease w s).0 claimed)
      | inr c ↦ rw (own, c) claimed
    ]

dropped-AllFit :
    (w : ℕ) (s : Inbox) → Sound s → AllFit s.next_id s.entries s.delivered (drop_reader w s.readers)
dropped-AllFit w s h = filter-AllFit s.next_id s.entries s.delivered _ s.readers h.readers_fit

pub renew-Sound : (w : ℕ) (s : Inbox) → Sound s → Sound (renew w s)
unfolding renew
renew-Sound w s h =
    let lost = with_readers (drop_reader w s.readers) s s.lease (dropped-AllFit w s h) h in
    elim (Option-cases s.lease) [
      | inl e ↦ rw (renew, e) lost
      | inr (v, e) ↦ elim (Bool-cases (v == w)) [
        | inl q ↦ rw (renew, e, q) h
        | inr q ↦ rw (renew, e, q) lost
      ]
    ]

-- With no entry left, everything that is there has been delivered.
pub purged-Sound : (s : Inbox) → Sound s → Sound (purged s)
purged-Sound s h = record {
  cursor_fits = (omega (arith, h.cursor_fits.0), λ j p l. absurd (ground (arith, p)));
  readers_fit =
      weaken-AllFit s.next_id s.entries s.delivered s.next_id [] s.delivered s.readers
        (λ k f. (f.0, λ j p l. absurd (ground (arith, p)))) h.readers_fit;
  delivered_known = h.delivered_known;
  posted_known = λ j p. absurd (ground (arith, p));
  in_order = λ i j d p l. absurd (ground (arith, p));
}

pub release_lease-Sound :
    (w : ℕ) (purge : Bool) (s : Inbox) → Sound s → Sound (release_lease w purge s)
unfolding release_lease
release_lease-Sound w true s h =
    purged-Sound _ (with_readers (drop_reader w s.readers) s _ (dropped-AllFit w s h) h)
release_lease-Sound w false s h =
    with_readers (drop_reader w s.readers) s _ (dropped-AllFit w s h) h
