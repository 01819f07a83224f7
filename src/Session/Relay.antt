-- ===== src/Session/Relay.antt =====
-- What the bridge of an ssh session has copied, whatever the order of the turns.
use oakberryio.Prelude.{
  ◌≡◌, ◌⊎◌, ◌∙◌, ap, sym, refl, arith, ◌<◌, Option, none, some, List, [], ◌∷◌, ◌++◌, Text, length,
  inl, inr,
}
use mathlib.Core.List.{append_assoc, append-nil}
use oakberryio.Session.Vsock.{Conn, Turn, from_client, from_guest, broken, copied, bridge}

-- A copy that has met the end of its side has copied all of it.
abbrev pub Drained : Option Turn → Conn × Conn → Type 0
Drained none ends = Unit
Drained (some broken) ends = Unit
Drained (some from_client) ends = ends.0.unread ≡ []
Drained (some from_guest) ends = ends.1.unread ≡ []

-- From one pair of connections to a later one, in each direction: the bytes copied are the next ones
-- that were to be read, they were written in their order, and the rest is still to be read.
pub record Relayed (before after : Conn × Conn) : Type 0 where
  pub up : Text
  pub down : Text
  pub taken_up : before.0.unread ≡ up ++ after.0.unread
  pub written_up : after.1.written ≡ before.1.written ++ up
  pub taken_down : before.1.unread ≡ down ++ after.1.unread
  pub written_down : after.0.written ≡ before.0.written ++ down

Relayed-refl : (ends : Conn × Conn) → Relayed ends ends
Relayed-refl ends = record {
  up = [];
  down = [];
  taken_up = refl;
  written_up = sym (append-nil ends.1.written);
  taken_down = refl;
  written_down = sym (append-nil ends.0.written);
}

-- The invariant, over the four texts of two connections
relays :
    (turns : List Turn) (shown sent told said : Text)
    → let before : Conn × Conn =
        (record { written = shown; unread = sent }, record { written = told; unread = said }) in
      Relayed before (bridge turns before).0
      × Drained (bridge turns before).1 (bridge turns before).0
unfolding bridge copied
relays [] shown sent told said = (Relayed-refl _, tt)
relays (broken ∷ turns) shown sent told said = (Relayed-refl _, tt)
relays (from_client ∷ turns) shown [] told said = (Relayed-refl _, refl)
relays (from_client ∷ turns) shown (c ∷ sent) told said =
    let (k, d) = relays turns shown sent (told ++ c ∷ []) said in
    (
      record {
        up = c ∷ k.up;
        down = k.down;
        taken_up = ap (λ (l : Text). c ∷ l) k.taken_up;
        written_up = k.written_up ∙ append_assoc told (c ∷ []) k.up;
        taken_down = k.taken_down;
        written_down = k.written_down;
      },
      d,
    )
relays (from_guest ∷ turns) shown sent told [] = (Relayed-refl _, refl)
relays (from_guest ∷ turns) shown sent told (c ∷ said) =
    let (k, d) = relays turns (shown ++ c ∷ []) sent told said in
    (
      record {
        up = k.up;
        down = c ∷ k.down;
        taken_up = k.taken_up;
        written_up = k.written_up;
        taken_down = ap (λ (l : Text). c ∷ l) k.taken_down;
        written_down = k.written_down ∙ append_assoc shown (c ∷ []) k.down;
      },
      d,
    )

-- Whatever the turns, the bridge loses, doubles or swaps no byte before its end.
pub bridge-Relayed :
    (turns : List Turn) (ends : Conn × Conn)
    → Relayed ends (bridge turns ends).0 × Drained (bridge turns ends).1 (bridge turns ends).0
bridge-Relayed turns (a, b) = relays turns a.written a.unread b.written b.unread

-- A front of a text that has a head: shorter than the head, or the head and a front of what follows.
pub split_head :
    (head tail front rest : Text)
    → head ++ tail ≡ front ++ rest
    → (length front < length head)
      ⊎ ((more : Text) × (front ≡ head ++ more) × (tail ≡ more ++ rest))
split_head [] tail front rest e = inr (front, refl, e)
split_head (c ∷ head) tail [] rest e = inl (omega arith)
split_head (c ∷ head) tail (d ∷ front) rest e = elim (split_head head tail front rest (cc e)) [
  | inl short ↦ inl (omega (arith, short))
  | inr (more, same, left) ↦ inr (more, cc (e, same), left)
]
