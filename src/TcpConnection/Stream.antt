-- ===== src/TcpConnection/Stream.antt =====
-- net/tcp_connection.cpp: what `sendInLoop` and `handleWrite` do with the bytes of a stream.
use xweb.Prelude.{
  Yields, ℕ, ◌+◌, ◌≤◌, ◌<◌, ◌≡◌, refl, List, [], ◌∷◌, ◌++◌, arith, ltb, if◌then◌else◌, length, take,
  drop, ◌∙◌, ap, sym, append_assoc, append-nil, Bool, true, false, Bool-cases, inl, inr,
  length-append, length-drop,
}
use xweb.Prelude.Slices.{take_all, drop_all}
use xweb.Buffer.{Buffer, content, max_size}
use xweb.Buffer.Invariant.{IsValid}
use xweb.Buffer.Append.{append_refines}
use Prim.Native.Nat.{bit_or}
use xweb.Channel.{is_writing, has_flag-bit_or, bit_or_below, channel_write}
use xweb.TcpConnection.{
  TcpConnection, Attempt, queue_remaining, Effect, queue_rest, watch, note_high_water,
}

unfoldable pub bytes_of : Effect → List ℕ
bytes_of e = elim e [ Effect.sent ds ↦ ds | _ ↦ [] ]

-- What the socket took, oldest first.
unfoldable pub transmitted : List Effect → List ℕ
unfolding bytes_of
transmitted [] = []
transmitted (e ∷ es) = bytes_of e ++ transmitted es

-- All bytes that the connection answers for: taken by the socket, or waiting.
unfoldable pub stream : TcpConnection → List ℕ
stream c = transmitted c.effects ++ content c.output_buffer

pub transmitted-append :
    (es fs : List Effect) → transmitted (es ++ fs) ≡ transmitted es ++ transmitted fs
unfolding transmitted
transmitted-append [] fs = refl
transmitted-append (e ∷ es) fs = rw (transmitted-append es fs) (sym (append_assoc (bytes_of e) _ _))

pub transmitted-emit :
    (es : List Effect) (e : Effect) → transmitted (es ++ e ∷ []) ≡ transmitted es ++ bytes_of e
unfolding transmitted
transmitted-emit es e =
    transmitted-append es (e ∷ []) ∙ ap (λ ds. transmitted es ++ ds) (append-nil (bytes_of e))

-- An effect of another kind changes nothing.
pub transmitted-quiet :
    (b : Bool) (es : List Effect) (e : Effect)
    → bytes_of e ≡ []
    → transmitted (if b then es ++ e ∷ [] else es) ≡ transmitted es
transmitted-quiet true es e h = rw (transmitted-emit es e, h) (append-nil _)
transmitted-quiet false es e h = refl

-- The write flag is set while bytes wait, and only then.
pub record Inv (c : TcpConnection) : Type 0 where
  pub valid : IsValid c.output_buffer
  pub mask : c.channel.events < 16
  pub idle : is_writing c.channel ≡ false → length (content c.output_buffer) ≡ 0
  pub busy : is_writing c.channel ≡ true → 0 < length (content c.output_buffer)

abbrev behind : TcpConnection → List ℕ → Buffer → TcpConnection
behind c rest output = record (note_high_water c (length rest)) { output_buffer = output }

-- A rest that is queued waits behind the bytes before it, with the write flag set.
module _ (c : TcpConnection) (v : IsValid c.output_buffer) (mask : c.channel.events < 16)
    (rest : List ℕ) (some_rest : 0 < length rest) where
  transmitted-behind :
      (output : Buffer) → transmitted (behind c rest output).effects ≡ transmitted c.effects
  unfolding bytes_of
  transmitted-behind output = transmitted-quiet _ c.effects _ refl

  queue_rest_lem :
      c.output_buffer.writer_index + length rest ≤ max_size
      → Yields (queue_rest c rest) (λ c'. Inv c' × (stream c' ≡ stream c ++ rest))
  unfolding queue_rest stream bytes_of
  queue_rest_lem fits =
      let (output, made, (valid, bytes)) = append_refines v rest fits in
      let full : 0 < length (content output) =
        omega (arith, ap length bytes, length-append (content c.output_buffer) rest) in
      elim (Bool-cases (is_writing c.channel)) [
        | inl writing ↦ (
          behind c rest output,
          rw (made, writing) refl,
          (
            record {
              valid = valid;
              mask = mask;
              idle = λ e. absurd (ground (arith, writing));
              busy = λ e. full;
            },
            rw (transmitted-behind output, bytes) (sym (append_assoc _ _ rest)),
          ),
        )
        | inr waiting ↦ (
          watch (behind c rest output) (bit_or c.channel.events channel_write),
          rw (made, waiting) refl,
          (
            record {
              valid = valid;
              mask = bit_or_below c.channel.events mask;
              idle = λ e. absurd (ground (arith, has_flag-bit_or c.channel.events mask));
              busy = λ e. full;
            },
            rw
                (
                  transmitted-emit (behind c rest output).effects _,
                  transmitted-behind output,
                  bytes,
                  append-nil (transmitted c.effects),
                )
                (sym (append_assoc _ _ rest)),
          ),
        )
      ]

module _ (a : Attempt) (i : Inv a.conn) (ds : List ℕ) (whole : a.nwrote + a.remaining ≡ length ds)
    (healthy : a.fault_error ≡ false) where
  rest_lem : take a.remaining (drop a.nwrote ds) ≡ drop a.nwrote ds
  rest_lem = take_all a.remaining _ (omega (arith, length-drop a.nwrote ds, whole))

  pub queue_remaining_lem :
      a.conn.output_buffer.writer_index + a.remaining ≤ max_size
      → Yields
          (queue_remaining a ds)
          (λ c'. Inv c' × (stream c' ≡ stream a.conn ++ drop a.nwrote ds))
  unfolding queue_remaining
  queue_remaining_lem fits = elim (Bool-cases (ltb 0 a.remaining)) [
    | inl more ↦
        let length-rest : length (drop a.nwrote ds) ≡ a.remaining =
          omega (arith, length-drop a.nwrote ds, whole) in
        let (c', made, after) =
          queue_rest_lem a.conn i.valid i.mask (drop a.nwrote ds) (ground (arith, length-rest))
            (omega (arith, length-rest)) in
        (c', rw (healthy, more, rest_lem) (ground (arith, made)), after)
    | inr none_left ↦ (
      a.conn,
      rw (healthy, none_left) (ground arith),
      (i, rw (drop_all a.nwrote ds (ground arith)) (sym (append-nil _))),
    )
  ]
