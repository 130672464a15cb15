-- ===== src/Tests/Ws.antt =====
-- A socket that was opened, dropped and opened again: src/transport/ws.ts.
use secure_chat_client.Prelude.{◌≡◌, ◌≤◌, refl, true, List, [], ◌∷◌, All, length}
use secure_chat_client.Ws.{
  WsClientOptions, opened, new_client, connect, close, run, Event, gives_token, fires, opens, shuts,
  ticks,
}
use secure_chat_client.Ws.Closing.{IsOver, close-IsOver_after, close-reopens}
use secure_chat_client.Ws.Reconnect.{IsLeftAlone, connect-recovers}

abbrev opts : WsClientOptions
opts = record { reconnect = true; ping_interval_ms = 25000 }

-- The socket 0 opens, pings and is dropped.
abbrev dropped : List Event
dropped = gives_token ∷ opens 0 ∷ ticks 1 ∷ shuts 0 7 ∷ []

connect-recovers_example :
    (next : List Event) × (All IsLeftAlone next
      × (length next ≤ 3)
      × ((run opts next (run opts dropped (connect new_client))).state ≡ opened))
connect-recovers_example = connect-recovers opts dropped refl (tt, (tt, (tt, (tt, tt))))

close-IsOver_after_example : IsOver (
    run opts
      (fires ∷ shuts 0 7 ∷ [])
      (close (run opts (gives_token ∷ opens 0 ∷ []) (connect new_client))))
unfolding run
close-IsOver_after_example =
    close-IsOver_after opts (gives_token ∷ opens 0 ∷ []) (fires ∷ shuts 0 7 ∷ []) refl
      (tt, (tt, tt)) refl (tt, (tt, tt))

close-reopens_example :
    (next : List Event) × (All IsLeftAlone next
      × ((run opts next (close (run opts dropped (connect new_client)))).state ≡ opened))
unfolding run
close-reopens_example = close-reopens opts dropped refl (tt, (tt, (tt, (tt, tt)))) refl
