-- ===== src/Epoll/Input.antt =====
-- `reactor_epoll_on_epollin` as a whole: it receives, and the requests are executed.
use ghetto_redis.Prelude.{
  ℕ, ◌+◌, ◌^◌, ◌≤◌, ◌<◌, ◌≡◌, ◌⊎◌, refl, ap, ◌∙◌, ◌==◌, ==_self, if◌then◌else◌, List, ◌++◌, Bool,
  true, false, not, some, length, inl, inr, arith,
}
use native.Mathlib.Decide.{dec_lt}
use ghetto_redis.Prelude.Words.{Memory, Bytes, slice}
use ghetto_redis.HashMap.{HashMap}
use ghetto_redis.Kv.{Entry}
use ghetto_redis.Protocol.{message_max_length}
use ghetto_redis.Commands.State.{World, set_conn}
use ghetto_redis.Commands.Table.{Command}
use ghetto_redis.Commands.Frame.{Grown, queued}
use ghetto_redis.Reactor.{queue_size}
use ghetto_redis.Server.Progress.{drain-Returns, Overlong}
use ghetto_redis.Epoll.{Answer, done, Exit, returns, ◌>>=◌, drained, reactor_epoll_on_epollin}
use ghetto_redis.Epoll.Receive.{unread, first_answer, receive-unread}

module _ (h : HashMap Entry (λ e. e.key)) (t : HashMap Command (λ c. c.name)) where
  open h use {Map}
  open t use {Map as Commands}

  module _ (commands : Commands) (mem : Memory) (fuel self c : ℕ) where
    -- The loop over the requests, or no loop, keeps the end of the received bytes.
    abbrev Handles : Exit (World Map) → World Map → Type 0
    Handles o w =
        (w' : World Map) × (o ≡ returns w')
        × ((w'.conns c).recv_buf ≡ (w.conns c).recv_buf)
        × ((w'.conns c).recv_buf_read + (w'.conns c).recv_buf_size
            ≡ (w.conns c).recv_buf_read + (w.conns c).recv_buf_size)
        × Grown (w.conns c) (w'.conns c)

    drained-Handles :
        (w : World Map)
        → (w.conns c).recv_buf_size < fuel
        → (w.conns c).recv_buf + (w.conns c).recv_buf_read + (w.conns c).recv_buf_size + 3 < 2 ^ 62
        → ((q : ℕ) → queued w q + (w.conns c).recv_buf_size < queue_size)
        → (w.conns c).send_buf_sent ≤ length (w.conns c).send_buf
        → Handles (drained h t commands mem fuel self c w) w
          ⊎ Overlong mem
              (w.conns c).recv_buf
              ((w.conns c).recv_buf + (w.conns c).recv_buf_read + (w.conns c).recv_buf_size)
    drained-Handles w enough low room sendable =
        elim (drain-Returns h t commands mem self c fuel w enough low room sendable) [
          | inl (w', e, place, end, rest, sending) ↦
              inl (w', rw (e, drained) refl, place, omega (arith, place, end), sending)
          | inr large ↦ inr large
        ]

    -- Behind `receive`, the requests are executed unless the connection waits.
    continue-Handles :
        (go_on : Bool) (w : World Map)
        → (w.conns c).recv_buf_size < fuel
        → (w.conns c).recv_buf + (w.conns c).recv_buf_read + (w.conns c).recv_buf_size + 3 < 2 ^ 62
        → ((q : ℕ) → queued w q + (w.conns c).recv_buf_size < queue_size)
        → (w.conns c).send_buf_sent ≤ length (w.conns c).send_buf
        → Handles (if go_on then drained h t commands mem fuel self c w else returns w) w
          ⊎ Overlong mem
              (w.conns c).recv_buf
              ((w.conns c).recv_buf + (w.conns c).recv_buf_read + (w.conns c).recv_buf_size)
    continue-Handles true w enough low room sendable = drained-Handles w enough low room sendable
    continue-Handles false w enough low room sendable =
        inl (w, refl, refl, refl, (refl, omega arith))

  -- Where a connection, whose buffer begins below 2^61, has room for what `read` answers in the end,
  -- at least one byte, no more of its send buffer is sent than it holds, and every queue has room for a message for each of its bytes,
  -- `reactor_epoll_on_epollin` returns: no assertion fails, also not the one behind the parser, no push
  -- fails, and with fuel for one round more than there are bytes its loop ends. The bytes that are left
  -- end where the received ones do, so that the buffer is still in its bounds, and the send buffer holds
  -- no more than it has room for, unless the replies overrun it, which the code does not look at. The
  -- other exception is a request among these bytes that declares a length of 2^62 or more.
  pub reactor_epoll_on_epollin-returns :
      (commands : Commands) (answers : List (Answer Bytes)) (fuel self c : ℕ) (mem : Memory)
      (w : World Map) (bs : Bytes)
      → first_answer answers ≡ some (done bs)
      → 0 < length bs
      → (w.conns c).recv_buf_size + length bs ≤ message_max_length
      → (w.conns c).recv_buf_size + length bs < fuel
      → (w.conns c).recv_buf < 2 ^ 61
      → ((q : ℕ) → queued w q + ((w.conns c).recv_buf_size + length bs) < queue_size)
      → (w.conns c).send_buf_sent ≤ length (w.conns c).send_buf
      → (mem' : Memory) × (slice mem' (w.conns c).recv_buf ((w.conns c).recv_buf_size + length bs)
          ≡ unread mem (w.conns c) ++ bs)
        × (((w' : World Map) × (reactor_epoll_on_epollin h t commands answers fuel self c mem w
                ≡ returns (mem', w'))
              × ((w'.conns c).recv_buf ≡ (w.conns c).recv_buf)
              × ((w'.conns c).recv_buf_read + (w'.conns c).recv_buf_size
                  ≡ (w.conns c).recv_buf_size + length bs)
              × Grown (w.conns c) (w'.conns c)
              × (length (w'.conns c).send_buf ≤ message_max_length))
            ⊎ (((w' : World Map) × (reactor_epoll_on_epollin h t commands answers fuel self c mem w
                    ≡ returns (mem', w'))
                  × (message_max_length < length (w'.conns c).send_buf))
                ⊎ Overlong mem'
                    (w.conns c).recv_buf
                    ((w.conns c).recv_buf + ((w.conns c).recv_buf_size + length bs))))
  unfolding reactor_epoll_on_epollin
  reactor_epoll_on_epollin-returns commands answers fuel self c mem w bs first some_byte fits enough
        low room sendable =
      let (errno', mem', conn', receives, holds, place, start, size, sending) =
        receive-unread answers (w.errno self) mem (w.conns c) bs first some_byte fits in
      let w₁ =
        set_conn c conn' (record w { errno = λ i. if i == self then errno' else w.errno i }) in
      let place₁ : (w₁.conns c).recv_buf ≡ (w.conns c).recv_buf = rw (==_self c) place in
      let start₁ : (w₁.conns c).recv_buf_read ≡ 0 = rw (==_self c) start in
      let size₁ : (w₁.conns c).recv_buf_size ≡ (w.conns c).recv_buf_size + length bs =
        rw (==_self c) size in
      let sending₁ : Grown (w.conns c) (w₁.conns c) = rw (==_self c) sending in
      let unread_at : conn'.recv_buf + conn'.recv_buf_read ≡ (w.conns c).recv_buf =
        omega (arith, place, start) in
      (
        mem',
        rw (unread_at, size) at holds,
        elim (continue-Handles commands mem' fuel self c (not (w.conns c).flag_dispatch_waiting) w₁
            (omega (arith, size₁)) (omega (arith, place₁, start₁, size₁))
            (λ q. omega (arith, room q, size₁)) (omega (arith, sending₁.0, sending₁.1, sendable))) [
              | inl (w', e, place', end, grown) ↦
                  let returned : reactor_epoll_on_epollin h t commands answers fuel self c mem w
                      ≡ returns (mem', w') =
                    rw receives (ap (λ o. o >>= λ w''. returns (mem', w'')) e) in
                  elim (dec_lt message_max_length (length (w'.conns c).send_buf)) [
                    | yes over ↦ inr (inl (w', returned, over))
                    | no fits ↦ inl (
                      w',
                      returned,
                      place' ∙ place₁,
                      omega (arith, end, start₁, size₁),
                      (grown.0 ∙ sending₁.0, omega (arith, grown.1, sending₁.1)),
                      omega (arith, fits),
                    )
                  ]
              | inr (start, size, r, parsed, large, above, below) ↦ inr (
                  inr (
                    start,
                    size,
                    r,
                    parsed,
                    large,
                    omega (arith, above, place₁),
                    omega (arith, below, place₁, start₁, size₁),
                  ))
            ],
      )
