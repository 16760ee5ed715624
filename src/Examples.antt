-- ===== src/Examples.antt =====
-- Applications of the theorems to concrete data.
mod Subscriptions
mod Auth
mod Messages
mod Dispatcher
mod Prefill
mod PrefillLoop
mod Api
mod Transformer
mod TransformerLoop
mod Listener
mod Loop
mod Journey
mod Registry
mod Consumer
