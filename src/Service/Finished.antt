-- ===== src/Service/Finished.antt =====
-- How connections end: `Finish`, `finish_channels` and `retire_stale` of service.rs.
use opentunnel.Prelude.{
  sym, ==_iff, ◌∙◌, ◌==◌, some, ◌⊎◌, subst, get_elem?, Option-cases, ℕ, zero, suc, ◌-◌, ◌≤◌, ◌≡◌,
  ◌≢◌, refl, ap, ap₂, inl, inr, Bool, true, none, List, [], ◌∷◌, arith, All, map, Bool-cases,
}
use opentunnel.Service.Bridge.{
  Bridge, Channel, Outcome, Finish, finish, finish_cell, finish_channels, finish_all, is_attached,
  close,
}
use opentunnel.Service.Entry.{
  Machine, Entry, retire_stale, retire_bridge, is_stale, stale_bridge_ms,
}
use opentunnel.Service.Invariant.{retire_stale-bridges}

finish_cell_once :
    (o o' : Outcome) (a a' : Bool) (c : Finish)
    → finish_cell o' a' (finish_cell o a c) ≡ finish_cell o a c
unfolding finish_cell
finish_cell_once o o' a a' c = ground arith

-- The first outcome of a connection stays: finishing it again, with whatever outcome, changes
-- nothing, nor does it abort a connection that was not aborted.
pub finish_once :
    (h : ℕ) (o o' : Outcome) (a a' : Bool) (cells : List Finish)
    → finish h o' a' (finish h o a cells) ≡ finish h o a cells
unfolding finish
finish_once h o o' a a' [] = refl
finish_once zero o o' a a' (c ∷ cells) = ap (λ x. x ∷ cells) (finish_cell_once o o' a a' c)
finish_once (suc h) o o' a a' (c ∷ cells) = ap (λ xs. c ∷ xs) (finish_once h o o' a a' cells)

-- The connection had ended before and is as it was, or it ends now with this outcome and is aborted.
abbrev pub IsClosed : Outcome → Finish → Finish → Type 0
IsClosed o c c' =
    ((c.outcome ≢ none) × (c' ≡ c))
    ⊎ ((c.outcome ≡ none) × (c' ≡ record { outcome = some o; abort = true }))

-- The cell of a handle, where there is one.
abbrev pub ClosedAt : Outcome → List Finish → List Finish → ℕ → Type 0
ClosedAt o cells cells' h =
    (c : Finish)
    → get_elem? cells h ≡ some c
    → (c' : Finish) × (get_elem? cells' h ≡ some c') × IsClosed o c c'

decide_equal : (g h : ℕ) → (g ≡ h) ⊎ (g ≢ h)
decide_equal g h = elim (Bool-cases (g == h)) [
  | inl e ↦ inl ((==_iff g h).0 e)
  | inr e ↦ inr (λ s. ground arith)
]

All-mono :
    {P Q : ℕ × Channel → Type 0} (cs : List (ℕ × Channel))
    → ((c : ℕ × Channel) → P c → Q c)
    → All P cs
    → All Q cs
All-mono [] f h = tt
All-mono (c ∷ cs) f (h, hs) = (f c h, All-mono cs f hs)

finish_cell_ended : (o : Outcome) (c : Finish) → c.outcome ≢ none → finish_cell o true c ≡ c
unfolding finish_cell
finish_cell_ended o c h = ground arith

finish_cell_open :
    (o : Outcome) (c : Finish)
    → c.outcome ≡ none
    → finish_cell o true c ≡ record { outcome = some o; abort = true }
unfolding finish_cell
finish_cell_open o c h = ground arith

finish_cell-IsClosed : (o : Outcome) (c : Finish) → IsClosed o c (finish_cell o true c)
finish_cell-IsClosed o c = elim (Option-cases c.outcome) [
  | inl e ↦ inr (e, finish_cell_open o c e)
  | inr (set, e) ↦
      let ended : c.outcome ≢ none = λ n. cc (e, n) in inl (ended, finish_cell_ended o c ended)
]

finish_cell-set :
    (o o' : Outcome) (c : Finish)
    → finish_cell o true (finish_cell o' true c) ≡ finish_cell o' true c
finish_cell-set o o' c = finish_cell_once o' o true true c

finish_other :
    (g h : ℕ) (o : Outcome) (cells : List Finish)
    → g ≢ h
    → get_elem? (finish g o true cells) h ≡ get_elem? cells h
unfolding finish
finish_other g h o [] n = refl
finish_other zero zero o (c ∷ cells) n = absurd (n refl)
finish_other zero (suc h) o (c ∷ cells) n = refl
finish_other (suc g) zero o (c ∷ cells) n = refl
finish_other (suc g) (suc h) o (c ∷ cells) n = finish_other g h o cells (λ e. n (ap (λ k. suc k) e))

finish_at :
    (h : ℕ) (o : Outcome) (cells : List Finish) (c : Finish)
    → get_elem? cells h ≡ some c
    → get_elem? (finish h o true cells) h ≡ some (finish_cell o true c)
unfolding finish
finish_at h o [] c e = absurd (cc e)
finish_at zero o (c' ∷ cells) c e =
    let same : c' ≡ c = cc e in ap (λ x. some (finish_cell o true x)) same
finish_at (suc h) o (c' ∷ cells) c e = finish_at h o cells c e

module _ (o : Outcome) where
  -- A connection on which no channel stands.
  finish_all_other :
      (h : ℕ) (cs : List (ℕ × Channel)) (cells : List Finish)
      → All (λ c. c.1.cell ≢ h) cs
      → get_elem? (finish_all o cs cells) h ≡ get_elem? cells h
  unfolding finish_all
  finish_all_other h [] cells n = refl
  finish_all_other h ((conn, channel) ∷ cs) cells (n, others) =
      finish_all_other h cs (finish channel.cell o true cells) others
      ∙ finish_other channel.cell h o cells n

  -- A connection that has ended already.
  finish_all-finish_cell :
      (h : ℕ) (c : Finish) (cs : List (ℕ × Channel)) (cells : List Finish)
      → get_elem? cells h ≡ some (finish_cell o true c)
      → get_elem? (finish_all o cs cells) h ≡ some (finish_cell o true c)
  unfolding finish_all
  finish_all-finish_cell h c [] cells e = e
  finish_all-finish_cell h c ((conn, channel) ∷ cs) cells e =
      finish_all-finish_cell h c cs (finish channel.cell o true cells)
        (elim (decide_equal channel.cell h) [
          | inl same ↦
              subst (λ g. get_elem? (finish g o true cells) h ≡ some (finish_cell o true c))
                (sym same)
                (finish_at h o cells (finish_cell o true c) e
                  ∙ ap (λ x. some x) (finish_cell-set o o c))
          | inr n ↦ finish_other channel.cell h o cells n ∙ e
        ])

  finish_all-ClosedAt :
      (cs : List (ℕ × Channel)) (cells : List Finish)
      → All (λ c. ClosedAt o cells (finish_all o cs cells) c.1.cell) cs
  unfolding finish_all
  finish_all-ClosedAt [] cells = tt
  finish_all-ClosedAt ((conn, channel) ∷ cs) cells = (
    here,
    All-mono cs (λ c closed. later c.1.cell closed)
        (finish_all-ClosedAt cs (finish channel.cell o true cells)),
  )
    where
      here : ClosedAt o cells (finish_all o cs (finish channel.cell o true cells)) channel.cell
      here c e = (
        finish_cell o true c,
        finish_all-finish_cell channel.cell c cs (finish channel.cell o true cells)
            (finish_at channel.cell o cells c e),
        finish_cell-IsClosed o c,
      )

      later :
          (h : ℕ)
          → ClosedAt o
              (finish channel.cell o true cells)
              (finish_all o cs (finish channel.cell o true cells))
              h
          → ClosedAt o cells (finish_all o cs (finish channel.cell o true cells)) h
      later h closed = elim (decide_equal channel.cell h) [
        | inl same ↦
            subst (λ h. ClosedAt o cells (finish_all o cs (finish channel.cell o true cells)) h)
              same here
        | inr n ↦ λ c e. closed c (finish_other channel.cell h o cells n ∙ e)
      ]

-- When the connections of a bridge are finished with an outcome, none stays on it; each that had ended before is
-- as it was, and each other has this outcome and is aborted; no other connection changes.
pub finish_channels-ClosedAt :
    (o : Outcome) (b : Bridge) (cells : List Finish)
    → ((finish_channels o b cells).0.channels ≡ [])
      × All (λ c. ClosedAt o cells (finish_channels o b cells).1 c.1.cell) b.channels
      × ((h : ℕ)
          → All (λ c. c.1.cell ≢ h) b.channels
          → get_elem? (finish_channels o b cells).1 h ≡ get_elem? cells h)
unfolding finish_channels
finish_channels-ClosedAt o b cells =
    (refl, finish_all-ClosedAt o b.channels cells, λ h n. finish_all_other o h b.channels cells n)

-- Live bridges were heard of lately.
abbrev pub IsFresh : ℕ → Bridge → Type 0
IsFresh now b = is_attached b ≡ true → now - b.seen_at ≤ stale_bridge_ms

retire_bridge-IsFresh : (now : ℕ) (b : Bridge) → IsFresh now (retire_bridge now b)
unfolding retire_bridge is_stale close is_attached
retire_bridge-IsFresh now b h = ground arith

map-IsFresh : (now : ℕ) (bs : List Bridge) → All (IsFresh now) (map (retire_bridge now) bs)
map-IsFresh now [] = tt
map-IsFresh now (b ∷ bs) = (retire_bridge-IsFresh now b, map-IsFresh now bs)

retire_bridge_fresh : (now : ℕ) (b : Bridge) → IsFresh now b → retire_bridge now b ≡ b
unfolding retire_bridge is_stale
retire_bridge_fresh now b f = elim (Bool-cases (is_attached b)) [
  | inl e ↦ let f' = f e in ground arith
  | inr e ↦ ground arith
]

map-fresh : (now : ℕ) (bs : List Bridge) → All (IsFresh now) bs → map (retire_bridge now) bs ≡ bs
map-fresh now [] f = refl
map-fresh now (b ∷ bs) f =
    ap₂ (λ x xs. x ∷ xs) (retire_bridge_fresh now b f.0) (map-fresh now bs f.1)

-- After `retire_stale` every attached bridge was heard of within the last minute, and where that was
-- so before, no bridge changes.
pub retire_stale-IsFresh :
    (m : Machine) (now : ℕ) (s : Entry)
    → All (IsFresh now) (retire_stale m now s).bridges
      × (All (IsFresh now) s.bridges → (retire_stale m now s).bridges ≡ s.bridges)
retire_stale-IsFresh m now s = (
  rw (retire_stale-bridges m now s) (map-IsFresh now s.bridges),
  λ f. rw (retire_stale-bridges m now s) (map-fresh now s.bridges f),
)
