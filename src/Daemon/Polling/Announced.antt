-- ===== src/Daemon/Polling/Announced.antt =====
-- The headers that the polls of `DaemonPoller` announce.
use qwertycoin_ts.Common.{
  ◌≡◌, ◌≢◌, refl, sym, inl, inr, ap, subst, Bool-cases, true, false, List, [], ◌∷◌, Option, none,
  some, same_text, same_text_iff, Text, ◌⊎◌, ◌∙◌, if◌then◌else◌,
}
use qwertycoin_ts.Common.Result.{Result, ok, err}
use qwertycoin_ts.Daemon.Polling.{
  Header, DaemonPoller, PollReplies, compare_header, poll_header, poll_latest, poll_last_header,
}

abbrev pub cons_some : {A : Type 0} → Option A → List A → List A
cons_some none as' = as'
cons_some (some a) as' = a ∷ as'

-- The polls of a poller one after the other, and the headers to announce.
unfoldable pub poll_all :
    {E : Type 0} → List (PollReplies E) → DaemonPoller → DaemonPoller × List Header
unfolding poll_last_header
poll_all [] p = (p, [])
poll_all (r ∷ rs) p =
    let (q, header) = poll_last_header r p in
    let (later, headers) = poll_all rs q in (later, cons_some header headers)

abbrev pub cons_seen : {E : Type 0} → Result E Header → List Header → List Header
cons_seen (err e) hs = hs
cons_seen (ok h) hs = h ∷ hs

-- The last headers that the replies name, those of failed requests left out.
abbrev pub observed : {E : Type 0} → List (PollReplies E) → List Header
observed [] = []
observed (r ∷ rs) = cons_seen r.fetched (observed rs)

-- Each header is another than the one before it.
abbrev pub AreChanges : Header → List Header → Type 0
AreChanges last [] = Unit
AreChanges last (h ∷ hs) = (h.hash ≢ last.hash) × AreChanges h hs

-- The headers whose hash is another than that of the one before.
abbrev pub changes : Header → List Header → List Header
changes last [] = []
changes last (h ∷ hs) = elim (same_text h.hash last.hash) [
  | true ↦ changes last hs
  | false ↦ h ∷ changes h hs
]

changes-same :
    (last h : Header) (hs : List Header)
    → same_text h.hash last.hash ≡ true
    → changes last (h ∷ hs) ≡ changes last hs
changes-same last h hs same =
    ap (λ b. elim b [ true ↦ changes last hs | false ↦ h ∷ changes h hs ]) same

changes-new :
    (last h : Header) (hs : List Header)
    → same_text h.hash last.hash ≡ false
    → changes last (h ∷ hs) ≡ h ∷ changes h hs
changes-new last h hs other =
    ap (λ b. elim b [ true ↦ changes last hs | false ↦ h ∷ changes h hs ]) other

-- The last header that was seen.
abbrev pub latest_of : Header → List Header → Header
latest_of last [] = last
latest_of last (h ∷ hs) = latest_of h hs

abbrev pub hash_of : Option Header → Option Text
hash_of none = none
hash_of (some h) = h.hash

-- Headers with equal hashes count as one.
latest_of-same :
    (a b : Header) (hs : List Header)
    → a.hash ≡ b.hash
    → (latest_of a hs).hash ≡ (latest_of b hs).hash
latest_of-same a b [] e = e
latest_of-same a b (h ∷ hs) e = refl

Result-cases : {E A : Type 0} (m : Result E A) → ((e : E) × (m ≡ err e)) ⊎ ((a : A) × (m ≡ ok a))
Result-cases (err e) = inl (e, refl)
Result-cases (ok a) = inr (a, refl)

-- What the polls from a last header on have announced and saved.
IsFollowed : Header → List Header → DaemonPoller × List Header → Type 0
IsFollowed last seen result =
    (result.1 ≡ changes last seen)
    × AreChanges last result.1
    × (hash_of result.0.last_header ≡ (latest_of last seen).hash)

module _ {E : Type 0} (r : PollReplies E) (rs : List (PollReplies E)) (p : DaemonPoller) where
  poll_all-step :
      (q : DaemonPoller) (o : Option Header)
      → poll_last_header r p ≡ (q, o)
      → poll_all (r ∷ rs) p ≡ ((poll_all rs q).0, cons_some o (poll_all rs q).1)
  unfolding poll_all
  poll_all-step q o e =
      ap (λ step. ((poll_all rs step.0).0, cons_some step.1 (poll_all rs step.0).1)) e

  poll-failed : (e : E) → r.fetched ≡ err e → poll_last_header r p ≡ (p, none)
  unfolding poll_last_header poll_latest
  poll-failed e failed = ap (λ m. poll_latest m p r) failed

  poll-compared :
      (last h : Header)
      → r.fetched ≡ ok h
      → p.last_header ≡ some last
      → poll_last_header r p ≡ compare_header p last h
  unfolding poll_last_header poll_latest poll_header
  poll-compared last h seen e = ap (λ m. poll_latest m p r) seen ∙ ap (λ o. poll_header p o r h) e

  poll_all-after :
      (last : Header) (m : Result E Header) (q : DaemonPoller) (o : Option Header)
      → r.fetched ≡ m
      → poll_last_header r p ≡ (q, o)
      → IsFollowed last
          (cons_seen m (observed rs))
          ((poll_all rs q).0, cons_some o (poll_all rs q).1)
      → IsFollowed last (observed (r ∷ rs)) (poll_all (r ∷ rs) p)
  poll_all-after last m q o seen step h =
      subst (λ m. IsFollowed last (cons_seen m (observed rs)) (poll_all (r ∷ rs) p)) (sym seen)
        (subst (IsFollowed last (cons_seen m (observed rs))) (sym (poll_all-step q o step)) h)

compare_header-same :
    (p : DaemonPoller) (last h : Header)
    → same_text h.hash last.hash ≡ true
    → compare_header p last h ≡ (p, none)
unfolding compare_header
compare_header-same p last h same =
    ap (λ b. if b then (p, none) else (record p { last_header = some h }, some h)) same

compare_header-new :
    (p : DaemonPoller) (last h : Header)
    → same_text h.hash last.hash ≡ false
    → compare_header p last h ≡ (record p { last_header = some h }, some h)
unfolding compare_header
compare_header-new p last h other =
    ap (λ b. if b then (p, none) else (record p { last_header = some h }, some h)) other

poll_all-IsFollowed :
    {E : Type 0} (rs : List (PollReplies E)) (p : DaemonPoller) (last : Header)
    → p.last_header ≡ some last
    → IsFollowed last (observed rs) (poll_all rs p)
unfolding IsFollowed poll_all
poll_all-IsFollowed [] p last e = (refl, tt, ap hash_of e)
poll_all-IsFollowed (r ∷ rs) p last e = elim (Result-cases r.fetched) [
  | inl (x, failed) ↦
      poll_all-after r rs p last (err x) p none failed (poll-failed r rs p x failed)
        (poll_all-IsFollowed rs p last e)
  | inr (h, seen) ↦ elim (Bool-cases (same_text h.hash last.hash)) [
    | inl same ↦
        let followed = poll_all-IsFollowed rs p last e in
        poll_all-after r rs p last (ok h) p none seen
          (poll-compared r rs p last h seen e ∙ compare_header-same p last h same)
          (
            followed.0 ∙ sym (changes-same last h (observed rs) same),
            followed.1,
            followed.2
                ∙ latest_of-same last h (observed rs)
                    (sym ((same_text_iff h.hash last.hash).0 same)),
          )
    | inr other ↦
        let q = record p { last_header = some h } in
        let followed = poll_all-IsFollowed rs q h refl in
        poll_all-after r rs p last (ok h) q (some h) seen
          (poll-compared r rs p last h seen e ∙ compare_header-new p last h other)
          (
            ap (λ hs. h ∷ hs) followed.0 ∙ sym (changes-new last h (observed rs) other),
            (λ same. absurd (cc ((same_text_iff h.hash last.hash).1 same)), followed.1),
            followed.2,
          )
  ]
]

-- From a last header on, the polls announce exactly the headers, of those that the requests return,
-- whose hash is another than that of the one before: failed requests are passed over, no change that
-- a poll sees is lost, and no two announcements in a row have the same hash. Afterwards the last
-- header has the hash of the last one that a request returned.
pub poll_all-AreChanges :
    {E : Type 0} (rs : List (PollReplies E)) (p : DaemonPoller) (last : Header)
    → p.last_header ≡ some last
    → ((poll_all rs p).1 ≡ changes last (observed rs))
      × AreChanges last (poll_all rs p).1
      × (hash_of (poll_all rs p).0.last_header ≡ (latest_of last (observed rs)).hash)
unfolding IsFollowed
poll_all-AreChanges rs p last e = poll_all-IsFollowed rs p last e
