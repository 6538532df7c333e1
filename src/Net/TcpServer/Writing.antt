-- ===== src/Net/TcpServer/Writing.antt =====
-- Writing loses and reorders nothing.
use project_moon.Base.{
  append_assoc, concat, take-drop, take_all, ℕ, ◌≡◌, refl, sym, ap, ◌∙◌, Option, some, List, [],
  ◌∷◌, ◌++◌, arith, Bytes, length, take, drop, Bool, true, false, ◌==◌, nat_eq, nat_beq_iff,
  if◌then◌else◌,
}
use project_moon.Net.TcpServer.{Send, taken, would_block, interrupted, broken, flush}

-- The bytes that the sends of a run have taken.
unfoldable pub sent : List Send → List Bytes → Bytes
sent calls [] = []
sent [] (current ∷ queue) = []
sent (would_block ∷ calls) (current ∷ queue) = []
sent (interrupted ∷ calls) (current ∷ queue) = sent calls (current ∷ queue)
sent (broken ∷ calls) (current ∷ queue) = []
sent (taken n ∷ calls) (current ∷ queue) =
    let next = sent calls queue in
    if n == length current then take n current ++ next else take n current

-- One send: the front text is gone, or what is left of it stays in front.
one_send :
    (n : ℕ) (current behind more : Bytes) (whole : Bool) (next : Option (List Bytes))
    (queue left : List Bytes)
    → (whole ≡ true → n ≡ length current)
    → concat queue ≡ behind
    → ((rest : List Bytes) → next ≡ some rest → more ++ concat rest ≡ behind)
    → (if whole then next else some (drop n current ∷ queue)) ≡ some left
    → (if whole then take n current ++ more else take n current) ++ concat left ≡ current ++ behind
one_send n current behind more true next queue left all same ih h =
    rw (all refl, take_all current)
      (append_assoc current more (concat left) ∙ ap (λ s. current ++ s) (ih left h))
one_send n current behind more false next queue left all same ih h =
    let is : drop n current ∷ queue ≡ left = ground (arith, h) in
    rw (← is, same)
      (sym (append_assoc (take n current) (drop n current) behind)
        ∙ ap (λ s. s ++ behind) (take-drop n current))

-- What the sends have taken, followed by what is still queued, is what was queued, whenever the
-- connection stays open.
pub sent-flush :
    (calls : List Send) (queue left : List Bytes)
    → flush calls queue ≡ some left
    → sent calls queue ++ concat left ≡ concat queue
unfolding flush sent
sent-flush calls [] left h = ground (arith, h)
sent-flush [] (current ∷ queue) left h = ground (arith, h)
sent-flush (would_block ∷ calls) (current ∷ queue) left h = ground (arith, h)
sent-flush (interrupted ∷ calls) (current ∷ queue) left h =
    sent-flush calls (current ∷ queue) left h
sent-flush (broken ∷ calls) (current ∷ queue) left h = absurd (ground (arith, h))
sent-flush (taken n ∷ calls) (current ∷ queue) left h =
    one_send n current (concat queue) (sent calls queue) (n == length current) (flush calls queue)
      queue left (nat_beq_iff n (length current)).0 refl (λ rest e. sent-flush calls queue rest e) h
