-- ===== src/Web/Net.antt =====
-- The sockets below the web server (zsock_*, of the operating system), over the state `W` of the
-- world outside the program.
use onboarding.Base.{ℕ, ℤ, Bytes}

pub record Net (W : Type 0) : Type 0 where
  -- `zsock_send(sock, buf, len, 0)`, on the first len bytes of buf
  pub send : ℕ → Bytes → W → ℤ × W
  -- `zsock_close(sock)`
  pub close : ℕ → W → W

-- What one `zsock_recv` of one byte reports. `again` is an error with errno EAGAIN or EINTR.
pub data Recv : Type 0 where
  closed again : Recv
  failed : ℕ → Recv
  byte : ℕ → Recv
