-- ===== src/Log/Appender/Files.antt =====
-- The file stream of `FileLogAppender` (wb_server/log.cc).
use cpp_wb_server.Common.{
  ◌⊎◌, ℕ, ◌≡◌, refl, ◌∙◌, ap, true, false, not, [], ◌∷◌, ◌++◌, some, Text, codes, arith,
  update_self,
}
use cpp_wb_server.Log.Level.{Level, le}
use cpp_wb_server.Log.Event.{Event}
use cpp_wb_server.Log.Formatter.{Formatter, format}
use cpp_wb_server.Log.World.{
  FileStream, Appender, to_file, World, System, ok, console, emit, put_appender,
}
use cpp_wb_server.Log.Appender.{
  reopen, close_stream, open_stream, refresh, log, log_to, write_file, printer,
}

-- Open and good, or closed and failed.
abbrev pub IsSettled : FileStream → Type 0
IsSettled s = s.fails ≡ not s.is_open

-- On a settled stream, and on a new one, `reopen` answers whether the system opens the file, and
-- leaves the stream open and good in that case, closed and failed in the other.
pub reopen_settles :
    (sys : System) (s : FileStream)
    → ((s.fails ≡ not s.is_open) ⊎ ((s.is_open ≡ false) × (s.fails ≡ false)))
    → ((reopen sys s).1 ≡ sys.can_open s.file_name)
      × ((reopen sys s).0.is_open ≡ sys.can_open s.file_name)
      × IsSettled (reopen sys s).0
      × ((reopen sys s).0.file_name ≡ s.file_name)
unfolding reopen close_stream open_stream
reopen_settles sys s h = ground arith

-- A stream that has failed while its file is open, as after a write that the system refused.
abbrev pub IsBroken : FileStream → Type 0
IsBroken s = (s.is_open ≡ true) × (s.fails ≡ true)

-- Such a stream is never closed again: `reopen` says that it succeeded, and changes nothing.
pub reopen_broken : (sys : System) (s : FileStream) → IsBroken s → reopen sys s ≡ (s, true)
unfolding reopen close_stream open_stream
reopen_broken sys s (o, f) = ground arith

-- The stream of the file appender at `a`.
abbrev pub HasBroken : World → ℕ → Type 0
HasBroken w a = (s : FileStream) × ((w.appenders a).target ≡ to_file s) × IsBroken s

refresh-IsBroken : (sys : System) (s : FileStream) → IsBroken s → IsBroken (refresh sys s)
unfolding refresh
refresh-IsBroken sys s b = ground (arith, reopen_broken sys s b)

module _ (sys : System) (a : ℕ) (w : World) where
  log_file :
      (x : Level) (e : Event) (f : Formatter) (s : FileStream)
      → (w.appenders a).target ≡ to_file s
      → (w.appenders a).formatter ≡ some f
      → le (w.appenders a).level x ≡ true
      → log sys a x e w ≡ ok (write_file sys a (refresh sys s) (format (printer sys w) x e f) w)
  unfolding log log_to
  log_file x e f s t h on = simp (on, t, h)

  -- What is left of the state when a failed stream is written to.
  abbrev refused_at : FileStream → World
  refused_at s =
      emit
        (put_appender w a (record (w.appenders a) { target = to_file (record s { fails = true }) }))
        (console (codes "error\n"))

  write_file_failed :
      (s : FileStream) (text : Text) → s.fails ≡ true → write_file sys a s text w ≡ refused_at s
  unfolding write_file
  write_file_failed s text h = simp h

-- When the stream of a file appender has failed while its file is open, no message reaches the
-- file: a call that passes the level test prints `error` to the console instead, whatever the time,
-- and the stream stays as broken.
pub log_broken :
    (sys : System) (a : ℕ) (x : Level) (e : Event) (w : World) (f : Formatter)
    → HasBroken w a
    → (w.appenders a).formatter ≡ some f
    → le (w.appenders a).level x ≡ true
    → (w' : World) × (log sys a x e w ≡ ok w')
      × (w'.output ≡ w.output ++ console (codes "error\n") ∷ [])
      × HasBroken w' a
log_broken sys a x e w f (s, t, b) h on =
    let s' : FileStream = refresh sys s in
    let b' : IsBroken s' = refresh-IsBroken sys s b in
    (
      refused_at sys a w s',
      log_file sys a w x e f s t h on
          ∙ ap ok (write_file_failed sys a w s' (format (printer sys w) x e f) b'.1),
      refl,
      (
        record s' { fails = true },
        ap (λ (y : Appender). y.target) (update_self w.appenders a _),
        (b'.0, refl),
      ),
    )
