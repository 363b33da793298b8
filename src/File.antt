-- ===== src/File.antt =====
-- src/File.cpp and include/okssystem/File.hpp: the class `File`, by children: its static functions
-- on names, the descriptions for people, and the methods that ask and change the file system.
pub mod Names
pub mod Pretty
pub mod Object
pub mod Directories
pub mod Copies
pub mod Streams
