-- ===== src/Gateway/Rounds.antt =====
-- The listener of a connection in src/gateway/gateway.cpp has no access to its session's parser.
use nasdaq_matching_engine.Common.{ℕ, ◌≡◌, refl, List}
use nasdaq_matching_engine.Soup.Session.{
  ServerSession, accept_login, send_sequenced, set_state, queue,
}
use nasdaq_matching_engine.Soup.Session.Ending.{KeepsParser}
use nasdaq_matching_engine.Gateway.{
  Command, Handled, ignored, answered, queued, handle_ouch, act_on, conn_listener,
}

act_on-parser :
    (h : Handled) (s : ServerSession × List Command) → (act_on h s).0.parser ≡ s.0.parser
unfolding act_on send_sequenced queue
act_on-parser ignored s = refl
act_on-parser (answered bytes) s = refl
act_on-parser (queued c) s = refl

pub conn_listener-KeepsParser : (id now : ℕ) → KeepsParser (conn_listener id now)
unfolding conn_listener accept_login set_state queue
conn_listener-KeepsParser id now = record {
  login = λ req s. refl;
  unsequenced = λ bytes s. act_on-parser (handle_ouch id now bytes) s;
  logout = λ s. refl;
}
