-- ===== src/Search.antt =====
-- src/engines: the plugins that ask a web service and print what it answers.
pub mod Json
pub mod Query
pub mod Results
pub mod Prints
pub mod Urls
pub mod Forms
pub mod Keyed
pub mod Sites
pub mod Finds
pub mod Plugin
pub mod Bing
pub mod Duck
pub mod Google
pub mod Custom
pub mod Stack
pub mod Dummy
pub mod Wikipedia
pub mod Credits
