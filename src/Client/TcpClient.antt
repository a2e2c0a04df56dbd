-- ===== src/Client/TcpClient.antt =====
-- client/tcp_client.h: one connection to a server. What the socket answers to a poll and to a peek is
-- a parameter; the sizes of its buffers are left out. A peer id is kept
-- as the bit pattern of its `int`; `times_` counts at most one above a pool's `max_times_`.
use zerver.Prelude.{
  ℕ, ◌+◌, Bool, true, false, Option, none, some, String, ◌||◌, ◌&&◌, not, leb, if◌then◌else◌,
}
use zerver.Prelude.Int.{ℤ, pos, negsuc}

pub record TcpClient : Type 0 where
  pub times : ℕ
  pub peer_id : ℕ
  pub is_closed : Bool
  pub last_touch_time : ℕ

unfoldable pub new_tcp_client : ℕ → ℕ → TcpClient
new_tcp_client peer_id now = record {
  times = 0;
  peer_id = peer_id;
  is_closed = false;
  last_touch_time = now;
}

pub data ErrorCode : Type 0 where
  no_error would_block other_error : ErrorCode

-- The answers of `poll_read` and of `recvmsg` with `MSG_PEEK`.
pub record Poll : Type 0 where
  pub poll_rc : ℤ
  pub poll_error : ErrorCode
  pub peek_rc : ℤ
  pub peek_error : ErrorCode

abbrev pub is_set : ErrorCode → Bool
is_set no_error = false
is_set _ = true

abbrev is_would_block : ErrorCode → Bool
is_would_block would_block = true
is_would_block _ = false

abbrev is_positive : ℤ → Bool
is_positive (pos n) = leb 1 n
is_positive (negsuc n) = false

abbrev is_negative : ℤ → Bool
is_negative (pos n) = false
is_negative (negsuc n) = true

unfoldable pub is_error : Poll → Bool
is_error p =
    if is_positive p.poll_rc && not (is_set p.poll_error)
    then not (is_positive p.peek_rc) || is_set p.peek_error
    else is_negative p.poll_rc || (is_set p.poll_error && not (is_would_block p.poll_error))

unfoldable pub increase_times : TcpClient → TcpClient
increase_times c = record c { times = c.times + 1 }

unfoldable pub close : TcpClient → TcpClient
close c = if c.is_closed then c else (record c { is_closed = true })

unfoldable pub on_recollect : ℕ → TcpClient → TcpClient
on_recollect now c = record c { last_touch_time = now }

-- `now - last_touch_time_ >= time`, without the subtraction.
unfoldable pub expired : ℕ → ℕ → TcpClient → Bool
expired now time c = leb (time + c.last_touch_time) now

-- `remote_ip`, with the socket's remote endpoint as text, or `none` where the socket has none.
unfoldable pub remote_ip : Option String → String
remote_ip (some ip) = ip
remote_ip none = ""
