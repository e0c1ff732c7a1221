-- ===== src/Gateway/Numbers/Unique.antt =====
-- tg2sip/gateway.cpp, `process_event(InternalError)`: an error is delivered to the bridge whose
-- context reported it.
use mathlib.Core.Path.{subst}
use tg2sip_webrtc.Prelude.{
  ℕ, zero, suc, ◌<◌, ◌≤◌, ◌^◌, ◌≡◌, ◌≢◌, refl, ◌∙◌, sym, ap, List, [], ◌∷◌, ◌++◌, some, Text, text,
  get_elem?, append_assoc, arith, pos, ==_iff, text_eq,
}
use tg2sip_webrtc.Outside.{Outside, CallOpParam}
use tg2sip_webrtc.World.{World, done, >>=-eq-done, internal_error}
use tg2sip_webrtc.Settings.{Settings}
use tg2sip_webrtc.Utils.{to_string, stol}
use tg2sip_webrtc.Utils.Decimal.{stol-to_string}
use tg2sip_webrtc.Gateway.Context.{Event, ctx_id_of}
use tg2sip_webrtc.Gateway.Sml.{Sml}
use tg2sip_webrtc.Gateway.Process.{
  Bridge, Gateway, find_index, is_context, process_internal, process_internal_error, deliver, tick,
}
use tg2sip_webrtc.Gateway.Numbers.{Rising, no_bridges, above, IsNumbered, fresh}
use tg2sip_webrtc.Gateway.Schedule.{Happening, round, arrives, enqueue, run}
use tg2sip_webrtc.Gateway.Schedule.Rounds.{tick-Parts}

append-injective : (xs ys zs : Text) → xs ++ ys ≡ xs ++ zs → ys ≡ zs
append-injective [] ys zs h = h
append-injective (x ∷ xs) ys zs h = append-injective xs ys zs (cc h)

to_string-injective :
    (m n : ℕ) → m < 2 ^ 63 → n < 2 ^ 63 → to_string (pos m) ≡ to_string (pos n) → m ≡ n
to_string-injective m n hm hn e =
    cc (sym (stol-to_string m hm).1 ∙ ap stol e ∙ (stol-to_string n hn).1)

ctx_id_of-injective :
    (pid m n : ℕ) → m < 2 ^ 63 → n < 2 ^ 63 → ctx_id_of pid m ≡ ctx_id_of pid n → m ≡ n
unfolding ctx_id_of
ctx_id_of-injective pid m n hm hn e =
    let shown : ℕ → Text = λ k. text "-" ++ to_string (pos k) in
    to_string-injective m n hm hn (
      cc (
        append-injective (to_string (pos pid)) (shown m) (shown n) (
          sym (append_assoc (to_string (pos pid)) (text "-") (to_string (pos m)))
          ∙ e
          ∙ append_assoc (to_string (pos pid)) (text "-") (to_string (pos n)))))

-- A bridge further up the list has a greater number.
Rising-get :
    {pid high low : ℕ} {bs : List Bridge} (i : ℕ) (b : Bridge)
    → Rising pid high low bs
    → get_elem? bs i ≡ some b
    → (k : ℕ) × (low < k) × (k ≤ high) × (b.ctx.id ≡ ctx_id_of pid k)
Rising-get i b no_bridges found = cc found
Rising-get zero b (above k l u e rest) found = (k, l, u, ground (arith, found, e))
Rising-get (suc i) b (above k l u e rest) found =
    let (j, m, v, same) = Rising-get i b rest found in (j, omega arith, v, same)

find_own :
    {pid high low : ℕ} {bs : List Bridge} (i : ℕ) (b : Bridge)
    → high < 2 ^ 63
    → Rising pid high low bs
    → get_elem? bs i ≡ some b
    → find_index (is_context b.ctx.id) bs ≡ some i
unfolding find_index
find_own i b h no_bridges found = cc found
find_own zero b h (above {b = c} k l u e rest) found =
    ground (arith, found, ==_iff c.ctx.id b.ctx.id)
find_own {pid} (suc i) b h (above {b = c} k l u e rest) found =
    let (j, m, v, same) = Rising-get i b rest found in
    let other : c.ctx.id ≢ b.ctx.id = λ eq.
      omega (arith, ctx_id_of-injective pid k j (omega arith) (omega arith) (sym e ∙ eq ∙ same)) in
    ground (arith, other, find_own i b h rest found, ==_iff c.ctx.id b.ctx.id)

module _ (sml : Sml) (o : Outside) (settings : Settings) where
  -- The numbers of the bridges rise along the list through any run of the loop that no exception
  -- ends.
  run-IsNumbered :
      (hs : List Happening) (g : Gateway) (w : World) {g' : Gateway} {w' : World}
      → IsNumbered g
      → run sml o settings hs g w ≡ done g' w'
      → IsNumbered g'
  unfolding run
  run-IsNumbered [] g w n e = subst IsNumbered (cc e) n
  run-IsNumbered (arrives a ∷ hs) g w n e = run-IsNumbered hs g (enqueue a w) n e
  run-IsNumbered (round ∷ hs) g w n e =
      let (g₁, w₁, ticks, rest) = >>=-eq-done (tick sml o settings g) (run sml o settings hs) w e in
      run-IsNumbered hs g₁ w₁ (tick-Parts sml o settings g w n ticks).numbered rest

  -- After any run of the loop from its start that no exception ends, an internal error with the
  -- context id of the bridge at place `i` is delivered to that bridge, while the counter of the
  -- context ids is below 2^63.
  pub internal_error_reaches :
      (hs : List Happening) (pid : ℕ) (w : World) {g : Gateway} {w' : World} (i : ℕ) (b : Bridge)
      (prm : CallOpParam)
      → run sml o settings hs (fresh pid) w ≡ done g w'
      → g.ctx_counter < 2 ^ 63
      → get_elem? g.bridges i ≡ some b
      → process_internal sml o settings (internal_error b.ctx.id prm) g
        ≡ deliver sml o settings (Event.internal_error prm) (g, i)
  unfolding process_internal process_internal_error
  internal_error_reaches hs pid w i b prm e h found =
      rw
        (
          find_own i b h (run-IsNumbered hs (fresh pid) w no_bridges e) found,
          process_internal_error,
        )
        refl
