-- ===== src/Application.antt =====
-- application: the events, the injected services, the use cases and the services.
pub mod Events
pub mod World
pub mod CheckDomain
pub mod Dispatch
pub mod Scheduling
pub mod Aps
pub mod Reload
pub mod EventBus
pub mod Registry
pub mod ChannelResolver
pub mod Revalidation
pub mod ParsingService
