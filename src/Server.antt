-- ===== src/Server.antt =====
-- day041_functional_options/main.go, lines 8 to 72: a server built from functional options. An
-- option is a function that changes the server; the returned error is `none`. A duration is its
-- number of nanoseconds.
pub mod Options
use Prim.Native.String.{String}
use go_daily_learning.Prelude.{
  ℕ, suc, Bool, true, false, Option, none, some, List, [], ◌∷◌, if◌then◌else◌,
}
use go_daily_learning.Prelude.Int.{ℤ, pos, negsuc}

pub record Server : Type 0 where
  pub host : String
  pub port : ℤ
  pub timeout : ℤ
  pub protocol : String

abbrev pub ServerOption : Type 0
ServerOption = Server → Server

pub with_host : String → ServerOption
with_host host s = record s { host = host }

pub with_port : ℤ → ServerOption
with_port port s = record s { port = port }

pub with_timeout : ℤ → ServerOption
with_timeout timeout s = record s { timeout = timeout }

pub with_protocol : String → ServerOption
with_protocol proto s = record s { protocol = proto }

-- 30 * time.Second
abbrev pub default_server : Server
default_server = record {
  host = "localhost";
  port = pos 8080;
  timeout = pos 30_000_000_000;
  protocol = "HTTP";
}

pub apply_all : Server → List ServerOption → Server
apply_all s [] = s
apply_all s (opt ∷ opts) = apply_all (opt s) opts

abbrev pub is_positive : ℤ → Bool
is_positive (pos ℕ.zero) = false
is_positive (pos (suc n)) = true
is_positive (negsuc n) = false

pub new_server : List ServerOption → Option Server
unfolding apply_all
new_server options =
    let srv = apply_all default_server options in if is_positive srv.timeout then some srv else none
