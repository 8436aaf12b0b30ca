-- ===== src/Log/Logger/Propagation.antt =====
-- Which appenders `Logger::set_formatter` and `Logger::add_appender` of wb_server/log.cc change.
use cpp_wb_server.Common.{
  ℕ, ◌≡◌, refl, ◌∙◌, ap, Bool, false, not, ◌&&◌, ◌||◌, List, [], ◌∷◌, Option, ◌==◌, if◌then◌else◌,
  arith, update, update_self,
}
use cpp_wb_server.Log.Formatter.{Formatter}
use cpp_wb_server.Log.World.{Appender, Logger, World, put_appender}
use cpp_wb_server.Log.Logger.{set_formatter, inherit_all, inherit_formatter}

abbrev pub contains : List ℕ → ℕ → Bool
contains [] b = false
contains (a ∷ as') b = a == b || contains as' b

-- An appender that `f` is passed on to.
abbrev pub inherited : Option Formatter → Bool → Appender → Appender
inherited f on a = if on && not a.has_formatter then record a { formatter = f } else a

inherit_all-appenders :
    (f : Option Formatter) (as' : List ℕ) (w : World) (b : ℕ)
    → (inherit_all f as' w).appenders b ≡ inherited f (contains as' b) (w.appenders b)
unfolding inherit_all
inherit_all-appenders f [] w b = refl
inherit_all-appenders f (a ∷ as') w b =
    inherit_all-appenders f as' (put_appender w a (inherit_formatter f (w.appenders a))) b ∙ step
  where
    step :
        inherited f (contains as' b) (update w.appenders a (inherit_formatter f (w.appenders a)) b)
        ≡ inherited f (contains (a ∷ as') b) (w.appenders b)
    step = unfold inherit_formatter in ground arith

pub inherit_all-loggers :
    (f : Option Formatter) (as' : List ℕ) (w : World) → (inherit_all f as' w).loggers ≡ w.loggers
unfolding inherit_all
inherit_all-loggers f [] w = refl
inherit_all-loggers f (a ∷ as') w = inherit_all-loggers f as' _

-- `Logger::set_formatter` gives its formatter to the logger and to exactly those of its appenders
-- that have none of their own; every other appender stays as it was.
pub set_formatter-inherited :
    (l : ℕ) (f : Option Formatter) (w : World) (b : ℕ)
    → (((set_formatter l f w).loggers l).formatter ≡ f)
      × ((set_formatter l f w).appenders b
          ≡ inherited f (contains (w.loggers l).appenders b) (w.appenders b))
unfolding set_formatter
set_formatter-inherited l f w b = (
  ap (λ (ls : ℕ → Logger). (ls l).formatter) (inherit_all-loggers f (w.loggers l).appenders _)
      ∙ ap (λ (x : Logger). x.formatter) (update_self w.loggers l _),
  inherit_all-appenders f (w.loggers l).appenders _ b,
)
