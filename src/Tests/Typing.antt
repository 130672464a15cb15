-- ===== src/Tests/Typing.antt =====
-- A keystroke, a send and a timer: src/typing.ts.
use secure_chat_client.Prelude.{true, [], ◌∷◌, lit}
use secure_chat_client.Typing.{empty_manager}
use secure_chat_client.Typing.Emissions.{keystroke, sent, run, IsInStep, signals_debounced}

signals_debounced_example :
    IsInStep (run (keystroke (lit "bob") true 1000 ∷ sent (lit "bob") 2000 ∷ []) empty_manager)
signals_debounced_example =
    signals_debounced (keystroke (lit "bob") true 1000 ∷ sent (lit "bob") 2000 ∷ [])
