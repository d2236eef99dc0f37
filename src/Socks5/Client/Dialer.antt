-- ===== src/Socks5/Client/Dialer.antt =====
-- Dialer.DialContext of internal/socks5/config.go: a connection to a target through a proxy.
pub mod Closed
pub mod Proxied
use cfwg.Base.{
  Bool, true, false, not, Option, none, some, if◌then◌else◌, Text, str, text_eq, Result, ok, err,
  Error, message_text,
}
use cfwg.Net.Decimal.{ℤ, pos, is_positive}
use cfwg.Net.Ip.{IpText}
use cfwg.Socks5.Conn.{Conn}
use cfwg.Socks5.Client.{client_handshake, client_connect}
use cfwg.Socks5.ProxyFile.{Dialer}

-- The connection to the proxy, and the error of its deadline.
pub record DialWorld : Type 0 where
  pub dial : Text → Result Conn
  pub deadline_error : Option Error

-- What a dialer returns; whether a connection to the proxy was opened, and whether it was closed
-- again; and the time after which reads and writes of it fail, counted from the dial.
pub record Attempt : Type 0 where
  pub answer : Result Conn
  pub opened : Bool
  pub closed : Bool
  pub deadline : Option ℤ

unfoldable pub timeout_of : Dialer → ℤ
timeout_of d = if not (is_positive d.timeout) then pos 10000000000 else d.timeout

given_up : Option ℤ → Error → Attempt
given_up deadline e = record { answer = err e; opened = true; closed = true; deadline = deadline }

module _ (T : IpText) (w : DialWorld) (d : Dialer) where
  -- The deadline is taken back at the end.
  connected : Result (Unit {0}) × Conn → Attempt
  unfolding given_up
  connected (err e, c) = given_up (some (timeout_of d)) e
  connected (ok u, c) = record { answer = ok c; opened = true; closed = false; deadline = none }

  shaken : Text → Result (Unit {0}) × Conn → Attempt
  unfolding connected given_up
  shaken address (err e, c) = given_up (some (timeout_of d)) e
  shaken address (ok u, c) = connected (client_connect T address c)

  limited : Text → Conn → Option Error → Attempt
  unfolding shaken given_up
  limited address c (some e) = given_up none e
  limited address c none = shaken address (client_handshake d.auth c)

  dialled : Text → Result Conn → Attempt
  unfolding limited
  dialled address (err e) = record {
    answer = err e;
    opened = false;
    closed = false;
    deadline = none;
  }
  dialled address (ok c) = limited address c w.deadline_error

  unfoldable pub dial_context : Text → Text → Attempt
  unfolding dialled
  dial_context network address =
      if not (text_eq network (str "tcp"))
      then record {
        answer = err (message_text "unsupported network" network);
        opened = false;
        closed = false;
        deadline = none;
      }
      else dialled address (w.dial d.server_addr)
